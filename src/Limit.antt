-- ===== src/Limit.antt =====
-- RateLimitMiddleware of libs/common/rate_limit.py. The comparison `t > now - 60` is written with no
-- subtraction, and what `call_next` answers is not part of the result.
use project_k_platform.Prelude.{
  ℕ, ◌+◌, ◌≤◌, String, ◌≡◌, refl, Bool, true, false, inl, inr, Option, List, [], ◌∷◌, ◌++◌, ltb,
  leb, keep, length, count_if, arith, or_default, Bool-cases, if◌then◌else◌, length-keep,
  keep-append, keep-keep, sym, ap, ◌∙◌, eq_iff,
}
use project_k_platform.Prelude.Dict.{Dict, lookup, insert, lookup-insert}
use project_k_platform.Prelude.Eq.{◌==◌, string_eq, beq_refl}
use project_k_platform.Prelude.Result.{Result, ok, err, http_exception, is_ok}

abbrev pub window_seconds : ℕ
window_seconds = 60

-- `self._requests`
abbrev pub Requests : Type 0
Requests = Dict String (List ℕ)

abbrev pub recent : ℕ → List ℕ → List ℕ
recent now ts = keep (λ t. ltb now (t + window_seconds)) ts

abbrev pub times : String → Requests → List ℕ
times ip rs = or_default (lookup ip rs) []

abbrev pub admit : ℕ → ℕ → String → List ℕ → Requests → Result {0} Unit × Requests
admit rpm now ip ts rs =
    if leb rpm (length ts)
    then (err (http_exception 429 "Rate limit exceeded"), insert ip ts rs)
    else (ok tt, insert ip (ts ++ now ∷ []) rs)

-- `dispatch`, where the limit is switched on or off; `client` is None behind no socket.
unfoldable pub dispatch : Bool → ℕ → ℕ → Option String → Requests → Result {0} Unit × Requests
dispatch enabled rpm now client rs =
    if enabled
    then (let ip = or_default client "unknown" in admit rpm now ip (recent now (times ip rs)) rs)
    else (ok tt, rs)

-- Whom a request counts for.
abbrev pub address : Option String → String
address client = or_default client "unknown"

-- The requests that were admitted, oldest first.
abbrev pub Log : Type 0
Log = List (ℕ × String)

abbrev pub admitted : String → Log → List ℕ
admitted ip [] = []
admitted ip ((t, j) ∷ log) = if j == ip then t ∷ admitted ip log else admitted ip log

abbrev logged : {A : Type 0} → Result A → ℕ → String → Log → Log
logged (ok a) now ip log = log ++ (now, ip) ∷ []
logged (err e) now ip log = log

-- Requests one after another, with the log of those that pass.
unfoldable pub serve_all : ℕ → List (ℕ × Option String) → Requests × Log → Requests × Log
unfolding dispatch
serve_all rpm [] s = s
serve_all rpm ((now, client) ∷ qs) (rs, log) =
    let (r, rs') = dispatch true rpm now client rs in
    serve_all rpm qs (rs', logged r now (address client) log)

-- The times of the requests do not decrease, up to `now`.
abbrev pub Ascending : ℕ → List (ℕ × Option String) → ℕ → Type 0
Ascending last [] now = last ≤ now
Ascending last ((t, client) ∷ qs) now = (last ≤ t) × Ascending t qs now

recent-recent :
    (now later : ℕ) (ts : List ℕ) → now ≤ later → recent later (recent now ts) ≡ recent later ts
recent-recent now later ts h =
    keep-keep (λ t. ltb now (t + window_seconds)) (λ t. ltb later (t + window_seconds)) ts
      (λ t e. ground arith)

admitted-append :
    (ip : String) (log : Log) (now : ℕ) (j : String)
    → admitted ip (log ++ (now, j) ∷ [])
      ≡ (if j == ip then admitted ip log ++ now ∷ [] else admitted ip log)
admitted-append ip [] now j = ground arith
admitted-append ip ((t, i) ∷ log) now j = ground (arith, admitted-append ip log now j)

-- From `now` on, the times kept for a client are those of its admitted requests.
abbrev Agrees : ℕ → Requests → Log → Type 0
Agrees now rs log = (ip : String) → recent now (times ip rs) ≡ recent now (admitted ip log)

later-Agrees :
    (now later : ℕ) (rs : Requests) (log : Log)
    → now ≤ later
    → Agrees now rs log
    → Agrees later rs log
later-Agrees now later rs log h a ip =
    sym (recent-recent now later (times ip rs) h)
    ∙ ap (recent later) (a ip)
    ∙ recent-recent now later (admitted ip log) h

times-insert :
    (ip j : String) (ts : List ℕ) (rs : Requests)
    → times ip (insert j ts rs) ≡ (if j == ip then ts else times ip rs)
times-insert ip j ts rs = ground (arith, lookup-insert j ip ts rs)

-- What is stored for a client in place of its times, if it agrees with the log, keeps the rest.
replace-Agrees :
    (now : ℕ) (j : String) (ts : List ℕ) (rs : Requests) (log after : Log)
    → Agrees now rs log
    → recent now ts ≡ recent now (admitted j after)
    → ((ip : String) → (j == ip) ≡ false → admitted ip after ≡ admitted ip log)
    → Agrees now (insert j ts rs) after
replace-Agrees now j ts rs log after a h k ip = elim (Bool-cases (j == ip)) [
  | inl e ↦ let same : j ≡ ip = (eq_iff j ip).0 e in rw (times-insert ip j ts rs, e, ← same) h
  | inr e ↦ rw (times-insert ip j ts rs, e, k ip e) (a ip)
]

module _ (rpm now : ℕ) (j : String) (rs : Requests) (log : Log) where
  admit-Agrees :
      Agrees now rs log
      → Agrees now
          (admit rpm now j (recent now (times j rs)) rs).1
          (logged (admit rpm now j (recent now (times j rs)) rs).0 now j log)
  admit-Agrees a =
      let e : recent now (recent now (times j rs)) ≡ recent now (admitted j log) =
        recent-recent now now (times j rs) (omega arith) ∙ a j in
      let p : ℕ → Bool = λ t. ltb now (t + window_seconds) in
      let own : admitted j (log ++ (now, j) ∷ []) ≡ admitted j log ++ now ∷ [] =
        rw (admitted-append j log now j, beq_refl j) in
      elim (Bool-cases (leb rpm (length (recent now (times j rs))))) [
        | inl q ↦
            rw q (replace-Agrees now j (recent now (times j rs)) rs log log a e (λ ip d. refl))
        | inr q ↦ rw q (
            replace-Agrees now j (recent now (times j rs) ++ now ∷ []) rs log (log ++ (now, j) ∷ [])
              a
              (keep-append p (recent now (times j rs)) (now ∷ [])
                ∙ ap (λ ts. ts ++ recent now (now ∷ [])) e
                ∙ sym (keep-append p (admitted j log) (now ∷ []))
                ∙ ap (recent now) (sym own))
              (λ ip d. rw (admitted-append ip log now j, d)))
      ]

serve_all-Agrees :
    (rpm last : ℕ) (qs : List (ℕ × Option String)) (now : ℕ) (rs : Requests) (log : Log)
    → Ascending last qs now
    → Agrees last rs log
    → Agrees now (serve_all rpm qs (rs, log)).0 (serve_all rpm qs (rs, log)).1
unfolding serve_all dispatch
serve_all-Agrees rpm last [] now rs log h a = later-Agrees last now rs log h a
serve_all-Agrees rpm last ((t, client) ∷ qs) now rs log (h, hs) a =
    serve_all-Agrees rpm t qs now _ _ hs
      (admit-Agrees rpm t (address client) rs log (later-Agrees last t rs log h a))

admit-is_ok :
    (rpm now n : ℕ) (ip : String) (ts : List ℕ) (rs : Requests)
    → length ts ≡ n
    → is_ok (admit rpm now ip ts rs).0 ≡ ltb n rpm
admit-is_ok rpm now n ip ts rs h = ground arith

-- With the limit on, from the start and for requests at times that do not decrease: a request is
-- admitted exactly if fewer than `rpm` requests of the same client were admitted in the sixty seconds
-- before it.
pub dispatch-serve_all :
    (rpm : ℕ) (qs : List (ℕ × Option String)) (now : ℕ) (client : Option String)
    → Ascending 0 qs now
    → let (rs, log) = serve_all rpm qs ([], []) in
      is_ok (dispatch true rpm now client rs).0
      ≡ ltb (count_if (λ t. ltb now (t + window_seconds)) (admitted (address client) log)) rpm
unfolding dispatch
dispatch-serve_all rpm qs now client h =
    let a = serve_all-Agrees rpm 0 qs now [] [] h (λ ip. refl) in
    let (rs, log) = serve_all rpm qs ([], []) in
    let n : length (recent now (times (address client) rs))
        ≡ count_if (λ t. ltb now (t + window_seconds)) (admitted (address client) log) =
      ap length (a (address client))
      ∙ length-keep (λ t. ltb now (t + window_seconds)) (admitted (address client) log) in
    admit-is_ok rpm now _ (address client) (recent now (times (address client) rs)) rs n
