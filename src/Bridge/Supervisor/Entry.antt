-- ===== src/Bridge/Supervisor/Entry.antt =====
-- The supervisor from outside: NewSupervisor with its options, the commands as its callers give them, and the two
-- queues that adapters and Pairers fill.
use om_tui.Common.{
  ℕ, Bool, true, false, not, ◌&&◌, ◌||◌, Option, none, some, List, [], ◌∷◌, ◌++◌, String, str_eq,
  trim, ltb, length, if◌then◌else◌,
}
use om_tui.Bridge.Supervisor.State.{State, Policy, LinkedDevice, Loop, ActivityKind, PairEventKind}
use om_tui.Bridge.Supervisor.Failures.{validate_policy}
use om_tui.Bridge.Supervisor.Loop.{Command, start, inputs_changed, begin_pair}
use om_tui.Bridge.Supervisor.Loop.Run.{new_loop}

pub data ConstructionError : Type 0 where
  invalid_account_id invalid_platform lifecycle_required clock_required random_required :
      ConstructionError
  invalid_policy invalid_initial_state : ConstructionError

-- The arguments of NewSupervisor: the collaborators are flags, false for nil. `initial` is the state of each
-- WithInitialState among the options, in their order.
pub record Construction : Type 0 where
  pub account_id : String
  pub platform : String
  pub has_lifecycle : Bool
  pub has_clock : Bool
  pub has_random : Bool
  pub policy : Policy
  pub initial : List State

pub data Constructed : Type 0 where
  refused_with : ConstructionError → Constructed
  running : Loop → Constructed

-- Text that is empty or surrounded by white space.
abbrev pub is_untidy : String → Bool
is_untidy s = str_eq (trim s) "" || not (str_eq (trim s) s)

abbrev pub is_initial : State → Bool
is_initial State.stopped = true
is_initial State.unpaired = true
is_initial _ = false

-- The options one after another; none for the error of WithInitialState.
unfoldable pub apply_options : List State → State → Option State
apply_options [] state = some state
apply_options (next ∷ rest) state =
    let result = apply_options rest next in if is_initial next then result else none

abbrev pub launch : Option State → Constructed
launch none = refused_with invalid_initial_state
launch (some state) =
    if is_initial state then running (new_loop state) else refused_with invalid_initial_state

unfoldable pub new_supervisor : Construction → Constructed
new_supervisor a =
    if is_untidy a.account_id
    then refused_with invalid_account_id
    else if is_untidy a.platform
    then refused_with invalid_platform
    else if not a.has_lifecycle
    then refused_with lifecycle_required
    else if not a.has_clock
    then refused_with clock_required
    else if not a.has_random
    then refused_with random_required
    else if not (validate_policy a.policy)
    then refused_with invalid_policy
    else launch (apply_options a.initial State.stopped)

-- Start and BeginPairing refuse another account: none.
unfoldable pub start_command : String → String → LinkedDevice → Option Command
start_command account requested device =
    if not (str_eq requested "") && not (str_eq requested account)
    then none
    else some (start device)

unfoldable pub begin_pairing_command : String → String → Option Command
begin_pairing_command account requested =
    if not (str_eq requested "") && not (str_eq requested account) then none else some begin_pair

unfoldable pub inputs_changed_command : String → Command
inputs_changed_command fingerprint = inputs_changed (trim fingerprint)

-- A generationActivity.
pub record Activity : Type 0 where
  pub generation : ℕ
  pub kind : ActivityKind
  pub time : ℕ

-- enqueueActivity: the queue holds 256.
unfoldable pub enqueue_activity : Activity → List Activity → List Activity
enqueue_activity a queue = if ltb (length queue) 256 then queue ++ a ∷ [] else queue

pub record PairNotice : Type 0 where
  pub kind : PairEventKind
  pub expires_at : ℕ
  pub message : String

pub data EmitResult : Type 0 where
  emitted sink_closed downstream_error queue_full : EmitResult

-- pairingSink.EmitPairEvent on the queue of 32 events. `active`: the sink is open; `fails`: it has a
-- downstream sink, which returns an error.
unfoldable pub emit_pair_event :
    Bool → Bool → PairNotice → List PairNotice → List PairNotice × EmitResult
emit_pair_event active fails notice queue =
    if not active
    then (queue, sink_closed)
    else if fails
    then (queue, downstream_error)
    else if ltb (length queue) 32
    then (queue ++ notice ∷ [], emitted)
    else (queue, queue_full)
