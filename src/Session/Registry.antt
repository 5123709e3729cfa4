-- ===== src/Session/Registry.antt =====
-- `ProcessRegistry` of runner/runner/trusted_session.py. A registered process is known by how it
-- ends when it is signalled, which the operating system decides.
use aiops_runner.Prelude.{
  ◌≡◌, String, Bool, true, false, Option, none, some, List, [], ◌∷◌, map, str_eq, if◌then◌else◌,
  is_some, Result, ok, err, arith, eq_iff,
}
use aiops_runner.Session.Codes.{SessionCode, session_busy}

-- The first wait returns, the wait after SIGKILL returns, or that wait times out too.
pub data Process : Type 0 where
  exits_on_terminate exits_on_kill outlives_kill : Process

abbrev pub Registry : Type 0
Registry = List (String × Process)

unfoldable pub find_process : String → Registry → Option Process
find_process k [] = none
find_process k ((j, p) ∷ r) = if str_eq j k then some p else find_process k r

unfoldable pub contains : String → Registry → Bool
unfolding find_process
contains k r = is_some (find_process k r)

unfoldable pub register : String → Process → Registry → Result SessionCode Registry
register k p r = if contains k r then err session_busy else ok ((k, p) ∷ r)

unfoldable pub unregister : String → Registry → Registry
unregister k [] = []
unregister k ((j, p) ∷ r) = let rest = unregister k r in if str_eq j k then rest else (j, p) ∷ rest

-- `cancel`: whether the process has stopped, or nothing where `TimeoutExpired` is raised.
unfoldable pub cancel_process : String → Registry → Option Bool × Registry
cancel_process k r = elim (find_process k r) [
  | none ↦ (some false, r)
  | some exits_on_terminate ↦ (some true, unregister k r)
  | some exits_on_kill ↦ (some true, unregister k r)
  | some outlives_kill ↦ (none, r)
]

abbrev or_false : Option Bool → Bool
or_false none = false
or_false (some b) = b

-- The loop of `cancel_all` over the identifiers; an exception counts as not stopped.
unfoldable pub cancel_each : List String → Registry → List (String × Bool) × Registry
cancel_each [] r = ([], r)
cancel_each (k ∷ ks) r =
    let (stopped, r') = cancel_process k r in
    let (results, r'') = cancel_each ks r' in ((k, or_false stopped) ∷ results, r'')

unfoldable pub cancel_all : Registry → List (String × Bool) × Registry
unfolding cancel_each
cancel_all r = cancel_each (map (λ p. p.0) r) r

pub find_process-unregister :
    (k j : String) (r : Registry)
    → find_process j (unregister k r) ≡ (if str_eq k j then none else find_process j r)
unfolding find_process unregister
find_process-unregister k j [] = ground arith
find_process-unregister k j ((i, p) ∷ r) =
    ground (arith, find_process-unregister k j r, eq_iff i k, eq_iff i j, eq_iff k j)
