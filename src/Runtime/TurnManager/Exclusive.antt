-- ===== src/Runtime/TurnManager/Exclusive.antt =====
-- The turns in memory by their threads, through each operation of the turn manager.
use liz.Prelude.{String, ◌≡◌, ◌≢◌, true, false, some, [], ◌∷◌, arith, eq_iff, any}
use liz.Assoc.{Assoc, lookup, insert, remove, values, AllValues}
use liz.Assoc.All.{AllValues-insert, AllValues-remove, AllValues-lookup}
use liz.Protocol.Ids.{ThreadId, TurnId}
use liz.Protocol.Thread.{Thread}
use liz.Protocol.Turn.{Turn}
use liz.Protocol.Requests.{TurnStartRequest, TurnCancelRequest}
use liz.Runtime.State.{RuntimeCoordinator}
use liz.Runtime.TurnManager.{
  is_live, is_running_in, started_turn, start_turn, insert_turn, put_turn, remove_turn, find_turn,
  cancel_turn, mark_waiting_approval, mark_running, complete_turn, fail_turn,
}
use liz.Runtime.TurnManager.Frames.{turn_frames}

abbrev pub OfOtherThread : ThreadId → Turn → Type 0
OfOtherThread id turn = turn.thread_id ≢ id

abbrev pub IsExclusive : Assoc Turn → Type 0
IsExclusive [] = Unit
IsExclusive ((k, turn) ∷ m) =
    (is_live turn.status ≡ true) × AllValues (OfOtherThread turn.thread_id) m × IsExclusive m

IsExclusive-insert_new :
    (k : TurnId) (turn : Turn) (m : Assoc Turn)
    → is_live turn.status ≡ true
    → AllValues (OfOtherThread turn.thread_id) m
    → IsExclusive m
    → IsExclusive (insert k turn m)
unfolding insert
IsExclusive-insert_new k turn [] l o e = (l, tt, tt)
IsExclusive-insert_new k turn ((j, u) ∷ m) l (n, o) (l', o', e) = ground (
  arith,
  IsExclusive-insert_new k turn m l o e,
  AllValues-insert (OfOtherThread u.thread_id) k turn m o' (λ p. n (cc)),
)

IsExclusive-remove : (k : TurnId) (m : Assoc Turn) → IsExclusive m → IsExclusive (remove k m)
unfolding remove
IsExclusive-remove k [] e = e
IsExclusive-remove k ((j, u) ∷ m) (l, o, e) =
    ground (arith, IsExclusive-remove k m e, AllValues-remove (OfOtherThread u.thread_id) k m o)

IsExclusive-insert_found :
    (k : TurnId) (turn u : Turn) (m : Assoc Turn)
    → lookup k m ≡ some u
    → turn.thread_id ≡ u.thread_id
    → is_live turn.status ≡ true
    → IsExclusive m
    → IsExclusive (insert k turn m)
unfolding insert lookup
IsExclusive-insert_found k turn u [] f t l e = cc
IsExclusive-insert_found k turn u ((j, v) ∷ m) f t l (l', o, e) =
    grind
      (arith, eq_iff j k, IsExclusive-insert_found k turn u m, AllValues-insert, AllValues-lookup)

pub others_of_no_running :
    (id : ThreadId) (m : Assoc Turn)
    → any (is_running_in id) (values m) ≡ false
    → IsExclusive m
    → AllValues (OfOtherThread id) m
unfolding any
others_of_no_running id [] h e = tt
others_of_no_running id ((k, u) ∷ m) h (l, o, e) =
    ground (arith, eq_iff u.thread_id id, others_of_no_running id m)

pub start_turn-IsExclusive :
    (thread : Thread) (request : TurnStartRequest) (s : RuntimeCoordinator)
    → IsExclusive s.turn_manager.active_turns
    → IsExclusive (start_turn thread request s).1.turn_manager.active_turns
unfolding start_turn insert_turn started_turn
start_turn-IsExclusive thread request s e =
    grind (arith, turn_frames, IsExclusive-insert_new, others_of_no_running)

pub complete_turn-IsExclusive :
    (thread_id : ThreadId) (turn_id : TurnId) (message : String) (s : RuntimeCoordinator)
    → IsExclusive s.turn_manager.active_turns
    → IsExclusive (complete_turn thread_id turn_id message s).1.turn_manager.active_turns
unfolding complete_turn remove_turn
complete_turn-IsExclusive thread_id turn_id message s e =
    grind (arith, turn_frames, IsExclusive-remove)

pub fail_turn-IsExclusive :
    (thread_id : ThreadId) (turn_id : TurnId) (message : String) (s : RuntimeCoordinator)
    → IsExclusive s.turn_manager.active_turns
    → IsExclusive (fail_turn thread_id turn_id message s).1.turn_manager.active_turns
unfolding fail_turn remove_turn
fail_turn-IsExclusive thread_id turn_id message s e = grind (arith, turn_frames, IsExclusive-remove)

pub cancel_turn-IsExclusive :
    (request : TurnCancelRequest) (s : RuntimeCoordinator)
    → IsExclusive s.turn_manager.active_turns
    → IsExclusive (cancel_turn request s).1.turn_manager.active_turns
unfolding cancel_turn remove_turn
cancel_turn-IsExclusive request s e = grind (arith, turn_frames, IsExclusive-remove)

pub mark_running-IsExclusive :
    (thread_id : ThreadId) (turn_id : TurnId) (s : RuntimeCoordinator)
    → IsExclusive s.turn_manager.active_turns
    → IsExclusive (mark_running thread_id turn_id s).1.turn_manager.active_turns
unfolding mark_running put_turn find_turn
mark_running-IsExclusive thread_id turn_id s e =
    grind (arith, turn_frames, IsExclusive-insert_found)

pub mark_waiting_approval-IsExclusive :
    (thread_id : ThreadId) (turn_id : TurnId) (reason : String) (s : RuntimeCoordinator)
    → IsExclusive s.turn_manager.active_turns
    → IsExclusive (mark_waiting_approval thread_id turn_id reason s).1.turn_manager.active_turns
unfolding mark_waiting_approval put_turn find_turn
mark_waiting_approval-IsExclusive thread_id turn_id reason s e =
    grind (arith, turn_frames, IsExclusive-insert_found)
