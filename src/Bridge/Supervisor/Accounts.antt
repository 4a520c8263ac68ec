-- ===== src/Bridge/Supervisor/Accounts.antt =====
-- The runs that the adapter handed over against those that were stopped, and the callers against the answers.
pub mod Routing
pub mod Runs
pub mod Arms
pub mod Commands
pub mod Histories
pub mod Promises
use om_tui.Common.{
  ℕ, ◌+◌, ◌≤◌, ◌≡◌, Bool, true, false, ◌&&◌, ◌||◌, not, Option, none, some, List, [], ◌∷◌, ltb,
  ◌==◌, is_none, if◌then◌else◌, arith,
}
use om_tui.Bridge.Supervisor.State.{StartChannel, idle, waiting, posted, Reply, Loop}
use om_tui.Bridge.Supervisor.Generations.{is_idle}

abbrev pub count : ℕ → List ℕ → ℕ
count n [] = 0
count n (x ∷ xs) = (if n == x then 1 else 0) + count n xs

abbrev pub callers : List (ℕ × Reply) → List ℕ
callers [] = []
callers ((caller, _) ∷ rest) = caller ∷ callers rest

-- A run that waits in the channel.
abbrev pub posted_run : ℕ → StartChannel → ℕ
posted_run generation (posted result) =
    if result.has_run && generation == result.generation then 1 else 0
posted_run generation _ = 0

abbrev pub is_waiting : ℕ → StartChannel → Bool
is_waiting generation (waiting g) = generation == g
is_waiting generation _ = false

-- The runs of a generation that are not stopped: the loop's, and one that waits in the channel.
abbrev pub held : ℕ → Loop → ℕ
held generation l =
    (if l.run && generation == l.snapshot.generation then 1 else 0)
    + posted_run generation l.start_results

-- The runs that a generation may have handed over by now.
abbrev pub allowance : ℕ → Loop → ℕ
allowance generation l =
    if ltb l.snapshot.generation generation || is_waiting generation l.start_results then 0 else 1

abbrev pub waits : ℕ → Option ℕ → ℕ
waits caller none = 0
waits caller (some c) = if caller == c then 1 else 0

-- The books for a generation and a caller, who is owed some answers in the iteration that is under way.
pub record IsBalanced (generation caller owed : ℕ) (l : Loop) : Type 0 where
  pub runs : count generation l.acquired ≡ count generation l.stops + held generation l
  pub once : count generation l.acquired ≤ allowance generation l
  pub answers :
      count caller l.asked
      ≡ count caller (callers l.replies) + waits caller l.pending_start_reply + owed

-- Only an outstanding Start keeps a caller waiting.
abbrev pub IsAwaited : Loop → Type 0
IsAwaited l = (is_none l.pending_start_reply || not (is_idle l.start_results)) ≡ true

pub record Books (generation caller owed : ℕ) (l : Loop) : Type 0 where
  pub balanced : IsBalanced generation caller owed l
  pub awaited : IsAwaited l

-- What the books read is the same in two loops.
pub record SameBooks (l l' : Loop) : Type 0 where
  pub same_run : l'.run ≡ l.run
  pub same_generation : l'.snapshot.generation ≡ l.snapshot.generation
  pub same_start : l'.start_results ≡ l.start_results
  pub same_pending : l'.pending_start_reply ≡ l.pending_start_reply
  pub same_acquired : l'.acquired ≡ l.acquired
  pub same_stops : l'.stops ≡ l.stops
  pub same_asked : l'.asked ≡ l.asked
  pub same_replies : l'.replies ≡ l.replies

pub SameBooks-IsBalanced :
    (g caller owed : ℕ) (l l' : Loop)
    → SameBooks l l'
    → IsBalanced g caller owed l
    → IsBalanced g caller owed l'
SameBooks-IsBalanced g caller owed l l' s b = ground arith

pub SameBooks-Books :
    (g caller owed : ℕ) (l l' : Loop)
    → SameBooks l l'
    → Books g caller owed l
    → Books g caller owed l'
SameBooks-Books g caller owed l l' s b = record {
  balanced = SameBooks-IsBalanced g caller owed l l' s b.balanced;
  awaited = ground (arith, s, b);
}
