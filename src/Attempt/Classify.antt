-- ===== src/Attempt/Classify.antt =====
-- quikode/retry_classify.py: why a subtask is tried again. The search of a compiled pattern, which is
-- Python's `re`, and `str.upper` are given.
use quikode.Prelude.{
  ℕ, ◌+◌, ◌-◌, Bool, true, false, not, ◌&&◌, ◌||◌, Option, none, some, List, [], ◌∷◌, ◌++◌, Text,
  codes, ◌==◌, map, nat_eq, leb, reverse, if◌then◌else◌, ℤ, is_pos, str_int,
}
use quikode.Fsm.Rules.{OrText, enum, text}
use quikode.Subtasks.Cycles.{take_text, drop_rows}

pub data RetryCategory : Type 0 where
  doer_output_invalid checker_fail checker_timeout container_oom container_vanished : RetryCategory
  agent_cli_rate_limit pre_commit_hook_fail network_timeout other : RetryCategory

unfoldable pub category_text : RetryCategory → Text
category_text doer_output_invalid = codes "doer_output_invalid"
category_text checker_fail = codes "checker_fail"
category_text checker_timeout = codes "checker_timeout"
category_text container_oom = codes "container_oom"
category_text container_vanished = codes "container_vanished"
category_text agent_cli_rate_limit = codes "agent_cli_rate_limit"
category_text pre_commit_hook_fail = codes "pre_commit_hook_fail"
category_text network_timeout = codes "network_timeout"
category_text other = codes "other"

-- `Verdict` of quikode/types.py.
pub data CheckVerdict : Type 0 where
  pass fail : CheckVerdict

abbrev pub verdict_text : CheckVerdict → Text
verdict_text pass = codes "PASS"
verdict_text fail = codes "FAIL"

-- The patterns of `_PATTERNS`.
pub data Pattern : Type 0 where
  too_many_requests retry_after limit_exceeded out_of_memory no_such_container : Pattern
  network_error hook_failed timed_out : Pattern

-- `m.start()` and `m.end()` of a pattern's first match in a text, and `str.upper`.
pub record Matcher : Type 0 where
  pub search : Pattern → Text → Option (ℕ × ℕ)
  pub upper : Text → Text

-- In order: the first pattern that matches decides.
abbrev pub patterns : List (Pattern × RetryCategory)
patterns =
    (too_many_requests, agent_cli_rate_limit)
    ∷ (retry_after, agent_cli_rate_limit)
    ∷ (limit_exceeded, agent_cli_rate_limit)
    ∷ (out_of_memory, container_oom)
    ∷ (no_such_container, container_vanished)
    ∷ (network_error, network_timeout)
    ∷ (hook_failed, pre_commit_hook_fail)
    ∷ (timed_out, checker_timeout)
    ∷ []

-- The code points of `str.isspace`.
is_space : ℕ → Bool
is_space c =
    leb 9 c && leb c 13
    || leb 28 c && leb c 32
    || nat_eq c 133
    || nat_eq c 160
    || nat_eq c 5760
    || leb 8192 c && leb c 8202
    || nat_eq c 8232
    || nat_eq c 8233
    || nat_eq c 8239
    || nat_eq c 8287
    || nat_eq c 12288

drop_spaces : Text → Text
unfolding is_space
drop_spaces [] = []
drop_spaces (c ∷ t) = if is_space c then drop_spaces t else c ∷ t

-- `str.strip`
unfoldable pub strip : Text → Text
unfolding drop_spaces
strip t = reverse (drop_spaces (reverse (drop_spaces t)))

-- `text or default`
abbrev pub or_text : Text → Text → Text
or_text [] default = default
or_text (c ∷ t) default = c ∷ t

-- `blob[max(0, start - 15) : end + 30].replace("\n", " ").strip()`
snippet : Text → ℕ × ℕ → Text
unfolding strip
snippet blob (start, end) = strip (
    map (λ c. if nat_eq c 10 then 32 else c)
      (take_text (end + 30 - (start - 15)) (drop_rows (start - 15) blob)))

-- "\n".join(s for s in (stderr or "", stdout or "") if s)
abbrev pub joined : Text → Text → Text
joined [] stdout = stdout
joined (c ∷ stderr) [] = c ∷ stderr
joined (c ∷ stderr) (d ∷ stdout) = (c ∷ stderr) ++ 10 ∷ d ∷ stdout

abbrev pub sig_default : Option ℤ → Text
sig_default none = codes "rc=?"
sig_default (some rc) = codes "rc=" ++ str_int rc

-- The last step of `_classify_retry_hint`, for the hint "checker".
abbrev pub checker_verdict : Text → Option Text → RetryCategory × Text
checker_verdict sig none = (doer_output_invalid, sig)
checker_verdict sig (some name) =
    if name == codes "FAIL"
    then (checker_fail, codes "verdict=FAIL")
    else (doer_output_invalid, sig)

abbrev pub or_hint :
    Option ℤ
    → Text
    → Option (RetryCategory × Text)
    → Option (RetryCategory × Text)
    → RetryCategory × Text
or_hint rc sig (some found) hinted = found
or_hint rc sig none (some hinted) = hinted
or_hint none sig none none = (other, codes "rc=None")
or_hint (some rc) sig none none = (other, sig)

-- `rc == 137`
abbrev pub was_killed : Option ℤ → Bool
was_killed none = false
was_killed (some rc) = is_pos 137 rc

abbrev pub is_content : RetryCategory → Bool
is_content checker_fail = true
is_content doer_output_invalid = true
is_content _ = false

-- The layer is written behind the signature of a failure of the work's content.
abbrev pub with_layer : Option Text → RetryCategory × Text → RetryCategory × Text
with_layer none (category, signature) = (category, signature)
with_layer (some []) (category, signature) = (category, signature)
with_layer (some (c ∷ layer)) (category, signature) =
    (category, if is_content category then signature ++ codes ",layer=" ++ c ∷ layer else signature)

module _ (m : Matcher) where
  unfoldable pub verdict_name : Option (OrText CheckVerdict) → Option Text
  verdict_name none = none
  verdict_name (some (enum v)) = some (verdict_text v)
  verdict_name (some (text t)) = some (m.upper t)

  unfoldable pub classify_retry_hint :
      Text → Option Text → Option (OrText CheckVerdict) → Option (RetryCategory × Text)
  unfolding verdict_name
  classify_retry_hint sig none verdict = none
  classify_retry_hint sig (some hint) verdict =
      if hint == codes "pre_commit"
      then some (pre_commit_hook_fail, sig)
      else if hint == codes "network"
      then some (network_timeout, sig)
      else if not (hint == codes "checker")
      then none
      else some (checker_verdict sig (verdict_name verdict))

  -- The loop over `_PATTERNS`.
  unfoldable pub first_match :
      Text → Text → List (Pattern × RetryCategory) → Option (RetryCategory × Text)
  unfolding snippet
  first_match blob sig [] = none
  first_match blob sig ((p, category) ∷ rest) = elim (m.search p blob) [
    | some found ↦ some (category, or_text (take_text 120 (snippet blob found)) sig)
    | none ↦ first_match blob sig rest
  ]

  unfoldable pub classify_retry_blob :
      Text → Text → Option Text → Option ℤ → Option (OrText CheckVerdict) → RetryCategory × Text
  unfolding first_match classify_retry_hint
  classify_retry_blob blob sig hint rc verdict =
      or_hint rc sig (first_match blob sig patterns) (classify_retry_hint sig hint verdict)

  unfoldable pub classify_retry :
      Option ℤ
      → Text
      → Text
      → Option Text
      → Option (OrText CheckVerdict)
      → Option Text
      → RetryCategory × Text
  unfolding classify_retry_blob is_pos
  classify_retry rc stderr stdout hint verdict layer =
      let blob = joined stderr stdout in
      with_layer layer (
        if was_killed rc
        then (container_oom, codes "rc=137 (OOMKilled)")
        else classify_retry_blob blob (sig_default rc) hint rc verdict)
