-- ===== src/Transfer/Window.antt =====
-- net/sync_session.cpp: the window of the sender.
use rasync.Prelude.{
  ℕ, ◌+◌, ◌-◌, ◌%◌, ◌^◌, Bool, true, not, ◌&&◌, ◌||◌, leb, ltb, ◌==◌, if◌then◌else◌,
}

-- `cur_xid_`, `cur_sent_` and `cur_acked_`
pub record Window : Type 0 where
  pub cur_xid : ℕ
  pub cur_sent : ℕ
  pub cur_acked : ℕ

-- The reset of `serve_one`.
abbrev pub opened : ℕ → Window
opened xid = record { cur_xid = xid; cur_sent = 0; cur_acked = 0 }

unfoldable pub note_sent : ℕ → ℕ → Window → Window
note_sent xid bytes w =
    if w.cur_xid == xid then record w { cur_sent = (w.cur_sent + bytes) % 2 ^ 64 } else w

-- What `window_wait` waits for. The subtraction is reached only where it does not wrap.
unfoldable pub may_go : Bool → ℕ → ℕ → Window → Bool
may_go running window xid w =
    if not running || not (w.cur_xid == xid)
    then true
    else leb w.cur_sent w.cur_acked || leb (w.cur_sent - w.cur_acked) window

unfoldable pub handle_file_ack : ℕ → ℕ → Window → Window
handle_file_ack xid bytes w =
    if w.cur_xid == xid && ltb w.cur_acked bytes then record w { cur_acked = bytes } else w
