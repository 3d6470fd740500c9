-- ===== src/Failover/Machine.antt =====
-- `_state_transition_allowed`, and the paths of states that it allows.
use nexus_rag.Prelude.{Bool, true, false, ◌&&◌, List, [], ◌∷◌}
use nexus_rag.Failover.{
  State, idle, freeze_writes, precheck, promoting, verification, completed, failed,
  rollback_pending, rolled_back,
}

unfoldable pub state_transition_allowed : State → State → Bool
state_transition_allowed idle precheck = true
state_transition_allowed idle freeze_writes = true
state_transition_allowed freeze_writes precheck = true
state_transition_allowed precheck promoting = true
state_transition_allowed precheck failed = true
state_transition_allowed promoting verification = true
state_transition_allowed promoting failed = true
state_transition_allowed verification completed = true
state_transition_allowed verification failed = true
state_transition_allowed failed rollback_pending = true
state_transition_allowed failed idle = true
state_transition_allowed rollback_pending rolled_back = true
state_transition_allowed rollback_pending failed = true
state_transition_allowed rolled_back idle = true
state_transition_allowed completed idle = true
state_transition_allowed completed rollback_pending = true
state_transition_allowed _ _ = false

-- Each state of the history may follow the one before it.
unfoldable pub follows : State → List State → Bool
unfolding state_transition_allowed
follows s [] = true
follows s (t ∷ ts) = state_transition_allowed s t && follows t ts

unfoldable pub is_path : List State → Bool
unfolding follows
is_path [] = true
is_path (s ∷ ts) = follows s ts
