-- ===== src/Attempt/Storms.antt =====
-- quikode/workers/subtask_stop_loss.py, and the checks of quikode/workers/subtasks.py that call it: a
-- subtask is given up when its last retries are a storm. A block's message is kept as its data.
use quikode.Prelude.{
  ℕ, zero, suc, ◌-◌, Bool, false, not, ◌&&◌, ◌||◌, Option, none, some, List, [], ◌∷◌, Text, codes,
  ◌==◌, map, keep, all, length, nat_eq, ltb, contains, if◌then◌else◌,
}
use quikode.Subtasks.Table.{RetryReason, Table}
use quikode.Subtasks.Cycles.{retry_reasons, drop_rows, take_text}

-- (category, signature)
abbrev pub Signature : Type 0
Signature = Text × Text

-- Why a subtask is given up.
pub data Block : Type 0 where
  cannot_reproduce_storm transport_storm : ℕ → Block
  same_signature_storm : ℕ → Text → Text → Block
  recreation_failed : Block
  transients_exceeded : ℕ → Block
  flatlined : ℕ → Block

abbrev pub same_signature : Signature → Signature → Bool
same_signature (c, s) (d, t) = c == d && s == t

-- The test in the loops of the first two checks.
abbrev pub shows_layer : Text → Signature → Bool
shows_layer mark (category, signature) =
    (category == codes "checker_fail" || category == codes "doer_output_invalid")
    && contains mark signature

-- The first two checks differ in their mark.
unfoldable pub is_layer_storm : Text → List Signature → ℕ → Bool
is_layer_storm mark sigs k =
    if ltb k 2 || ltb (length sigs) k then false else all (shows_layer mark) sigs

abbrev pub cannot_reproduce_mark : Text
cannot_reproduce_mark = codes ",layer=cannot_reproduce"

abbrev pub transport_mark : Text
transport_mark = codes ",layer=transport"

unfoldable pub maybe_cannot_reproduce_stop_loss : List Signature → ℕ → Option Block
unfolding is_layer_storm
maybe_cannot_reproduce_stop_loss sigs k =
    if is_layer_storm cannot_reproduce_mark sigs k then some (cannot_reproduce_storm k) else none

unfoldable pub maybe_transport_stop_loss : List Signature → ℕ → Option Block
unfolding is_layer_storm
maybe_transport_stop_loss sigs k =
    if is_layer_storm transport_mark sigs k then some (transport_storm k) else none

abbrev pub same_as_first : ℕ → List Signature → Option Block
same_as_first n [] = none
same_as_first n (first ∷ sigs) =
    if all (λ s. same_signature s first) (first ∷ sigs)
    then some (same_signature_storm n first.0 (take_text 120 first.1))
    else none

unfoldable pub maybe_same_signature_stop_loss : List Signature → ℕ → Option Block
maybe_same_signature_stop_loss sigs n =
    if ltb n 2 || ltb (length sigs) n then none else same_as_first n sigs

-- `xs[-n:]`, which is the whole list for 0.
abbrev pub last_rows {ℓ} : {A : Type ℓ} → ℕ → List A → List A
last_rows n xs = if nat_eq n 0 then xs else drop_rows (length xs - n) xs

-- The (category, signature) of the retries that are not transient, oldest first.
abbrev pub signatures : List RetryReason → List Signature
signatures reasons = map (λ r. (r.category, r.signature)) (keep (λ r. not r.transient) reasons)

-- The column's reasons are always entries that `append_retry_reason` wrote.
unfoldable pub last_n_retry_signatures : Text → Text → ℕ → Table → List Signature
last_n_retry_signatures task_id subtask_id limit t =
    last_rows limit (signatures (retry_reasons task_id subtask_id t))

-- The three settings of quikode/config.py.
pub record Caps : Type 0 where
  pub cannot_reproduce : ℕ
  pub transport : ℕ
  pub same_signature : ℕ

abbrev pub max_ℕ : ℕ → ℕ → ℕ
max_ℕ a b = if ltb a b then b else a

abbrev pub max_cap : Caps → ℕ
max_cap caps = max_ℕ (max_ℕ caps.cannot_reproduce caps.transport) caps.same_signature

abbrev pub or_else {ℓ} : {A : Type ℓ} → Option A → Option A → Option A
or_else none b = b
or_else (some a) b = some a

-- `xs[:n]`
abbrev pub first_rows {ℓ} : {A : Type ℓ} → ℕ → List A → List A
first_rows zero xs = []
first_rows (suc n) [] = []
first_rows (suc n) (x ∷ xs) = x ∷ first_rows n xs

-- `_maybe_signature_stop_loss` on the signatures that it read.
unfoldable pub stop_loss : Caps → List Signature → Option Block
unfolding maybe_cannot_reproduce_stop_loss maybe_transport_stop_loss maybe_same_signature_stop_loss
stop_loss caps sigs =
    or_else
      (maybe_cannot_reproduce_stop_loss (first_rows caps.cannot_reproduce sigs)
        caps.cannot_reproduce)
      (or_else (maybe_transport_stop_loss (first_rows caps.transport sigs) caps.transport)
        (maybe_same_signature_stop_loss (first_rows caps.same_signature sigs) caps.same_signature))

unfoldable pub maybe_signature_stop_loss : Caps → Text → Text → Table → Option Block
maybe_signature_stop_loss caps task_id subtask_id t =
    stop_loss caps (last_n_retry_signatures task_id subtask_id (max_cap caps) t)
