-- ===== src/Tests/Pings.antt =====
-- The reading of what ping prints.
use hawal.Base.{◌≡◌, refl, true, false, ◌||◌, String, ◌<>◌, none, some}
use hawal.Ping.{exited, Said, whole, failed, fixed_of, run_ping}
use hawal.Text.{has, is_space}
use hawal.Text.Words.{is_digits}
use hawal.Base.Fixed.{below}
use hawal.Ping.Loss.{run_ping-loss}

abbrev summary : String → String
summary rtt =
    "4 packets transmitted, 3 received, 25.5% packet loss, time 3004ms\nrtt min/avg/max/mdev = "
    <> rtt <> " ms\n"

summary_read :
    run_ping (some "1.2.3.4") (exited false (summary "96.438/96.517/96.613/0.072")) ≡ record {
      success = true;
      target = some "1.2.3.4";
      min_ms = record { digits = 96438; places = 3 };
      avg_ms = record { digits = 96517; places = 3 };
      max_ms = record { digits = 96613; places = 3 };
      packet_loss = record { digits = 255; places = 1 };
      said = Said.raw (summary "96.438/96.517/96.613/0.072");
    }
unfolding run_ping is_space
summary_read = refl

two_dots :
    run_ping none (exited true (summary "1.2/3.4.5/6/7"))
    ≡ failed none "could not convert string to float: '3.4.5'"
unfolding run_ping is_space
two_dots = refl

run_ping-loss_example :
    let r = run_ping none (
      exited false
        ("3 packets sent, 1 received," <> " " <> "66" <> "% packet loss" <> ", time 2003ms")) in
    (r.packet_loss ≡ whole 66) × (r.success ≡ (false || below (whole 66) 100))
unfolding has is_digits fixed_of run_ping
run_ping-loss_example =
    run_ping-loss none false "3 packets sent, 1 received," "66" ", time 2003ms" (whole 66) refl refl
      refl refl
