-- ===== src/Server/Agents/Laws.antt =====
-- What an agent without a valid token gets.
use hawal.Base.{ℕ, String, ◌≡◌, refl, sym, ◌∙◌, ap, arith, false, Option, none, some, map, inl, inr}
use hawal.Base.Tests.{Option-cases, Bool-cases}
use hawal.Base.Eq.{◌==◌, string_eq}
use hawal.Base.Lists.{contains}
use hawal.Base.Rows.{contains-map_key}
use hawal.Base.Result.{ok}
use hawal.Db.{Db}
use hawal.Db.Nodes.{token_of, get_node_by_token}
use hawal.Server.{World, error, gets, ◌>>=◌, send_json}
use hawal.Server.Logs.{with_node}
use hawal.Server.Tunnels.Laws.{with_reply}
use hawal.Server.Agents.{
  Headers, HeartbeatBody, bearer, node_token, sync_token, by_token, post_heartbeat,
}
use hawal.Server.Sync.{get_sync}

no_such_token :
    (token : String) (db : Db)
    → contains (map token_of db.nodes) token ≡ false
    → get_node_by_token token db ≡ none
unfolding get_node_by_token
no_such_token token db h = ground (arith, h, contains-map_key token_of token db.nodes)

same_token : (hs : Headers) (token : String) → node_token hs ≡ some token → sync_token hs ≡ token
unfolding node_token sync_token
same_token hs token h = elim (Bool-cases (bearer hs == "")) [
  | inl e ↦ ground (arith, h, e)
  | inr e ↦ ground (arith, h, e)
]

by_no_token :
    (hs : Headers) (db : Db)
    → contains (map token_of db.nodes) (sync_token hs) ≡ false
    → by_token (node_token hs) db ≡ none
by_no_token hs db h = elim (Option-cases (node_token hs)) [
  | inl e ↦ rw e refl
  | inr (token, e) ↦ rw e (
      no_such_token token db
        (ap (contains (map token_of db.nodes)) (sym (same_token hs token e)) ∙ h))
]

-- If no node of the table has the token that the headers of an agent give, the agent gets status 401
-- from its heartbeat and its sync, and both change nothing and send no event, whatever its body holds.
pub unknown_token_refused :
    (now : ℕ) (peer : String) (hs : Headers) (body : Option HeartbeatBody) (w : World)
    → contains (map token_of w.db.nodes) (sync_token hs) ≡ false
    → (post_heartbeat now peer hs body w
        ≡ (ok tt, with_reply 401 (error "Unauthorized node token") w))
      × (get_sync hs w ≡ (ok tt, with_reply 401 (error "unauthorized") w))
unfolding post_heartbeat get_sync gets ◌>>=◌ with_node send_json
unknown_token_refused now peer hs body w e =
    (rw (by_no_token hs w.db e) refl, rw (no_such_token (sync_token hs) w.db e) refl)
