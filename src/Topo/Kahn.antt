-- ===== src/Topo/Kahn.antt =====
-- The loop of `DAG._topo_order` and of `Plan._topo_order_raise_on_cycle`, over the ids in the
-- order of the dictionary and the pairs (id, dependency) in the order of the loops.
use quikode.Prelude.{
  ℕ, zero, suc, ◌+◌, ◌-◌, Option, none, some, List, [], ◌∷◌, ◌++◌, Text, nat_eq, if◌then◌else◌,
  update, keep, foldl, sort, length,
}

abbrev pub Edge : Type 0
Edge = Text × Text

-- The dictionaries `indeg` and `rev` (`children`), read as functions.
pub record Degrees : Type 0 where
  pub indeg : Text → ℕ
  pub rev : Text → List Text

unfoldable pub count_edge : Degrees → Edge → Degrees
count_edge g (n, d) = record {
  indeg = update g.indeg n (g.indeg n + 1);
  rev = update g.rev d (g.rev d ++ n ∷ []);
}

unfoldable pub degrees : List Edge → Degrees
degrees edges = foldl count_edge (record { indeg = λ _. 0; rev = λ _. [] }) edges

pub record Queue : Type 0 where
  pub indeg : Text → ℕ
  pub ready : List Text
  pub out : List Text

-- `indeg[nxt] -= 1; if indeg[nxt] == 0: ready.append(nxt)`
unfoldable pub relax : Queue → Text → Queue
relax q nxt =
    let left = q.indeg nxt - 1 in
    record q {
      indeg = update q.indeg nxt left;
      ready = if nat_eq left 0 then q.ready ++ nxt ∷ [] else q.ready;
    }

-- A round of the `while` loop, after `cur` left the head of the sorted queue.
unfoldable pub round : (Text → List Text) → Queue → Text → List Text → Queue
round rev q cur rest = foldl relax (record q { ready = rest; out = q.out ++ cur ∷ [] }) (rev cur)

-- The `while` loop with fuel; `none` means that the fuel ran out.
unfoldable pub loop : ℕ → (Text → List Text) → Queue → Option (List Text)
loop zero rev q = elim (sort q.ready) [ [] ↦ some q.out | _ ↦ none ]
loop (suc fuel) rev q = elim (sort q.ready) [
  | [] ↦ some q.out
  | cur ∷ rest ↦ loop fuel rev (round rev q cur rest)
]

abbrev pub start : List Text → List Edge → Queue
start ids edges =
    let g = degrees edges in
    record { indeg = g.indeg; ready = keep (λ n. nat_eq (g.indeg n) 0) ids; out = [] }

-- The outcome: an order, or ValueError for a cycle.
pub data Order : Type 0 where
  ordered : List Text → Order
  cycle out_of_fuel : Order

unfoldable pub check_length : List Text → Option (List Text) → Order
check_length ids none = out_of_fuel
check_length ids (some out) = if nat_eq (length out) (length ids) then ordered out else cycle

unfoldable pub topo_order : List Text → List Edge → Order
topo_order ids edges = check_length ids (loop (length ids) (degrees edges).rev (start ids edges))
