-- ===== src/Websocket/Retries.antt =====
-- pkg/websocket/client.go, `doWithBackOff`: the retries and the waits.
use choerodon_cluster_agent.Base.{
  ℕ, zero, suc, ◌+◌, ◌*◌, ◌≤◌, ◌<◌, ◌≡◌, ◌≢◌, refl, Bool, true, false, List, [], ◌∷◌, arith, ltb,
  length, Bool-cases, inl, inr, subst, sym,
}

-- What a call of `f` answers: it is done, it is to be called again at once, or it has failed; the flag
-- says whether the client quits during the wait that follows.
pub data Attempt : Type 0 where
  done again : Attempt
  failed : Bool → Attempt

-- How `doWithBackOff` stands.
pub data Verdict : Type 0 where
  finished gave_up quit trying : Verdict

-- The loop, with the number of retries and the next wait in seconds; the waits that it has made.
unfoldable pub retry_loop : ℕ → ℕ → List Attempt → Verdict × List ℕ
retry_loop retries back_off [] = elim (ltb 5 retries) [
  | true ↦ (gave_up, [])
  | false ↦ (trying, [])
]
retry_loop retries back_off (done ∷ rest) = elim (ltb 5 retries) [
  | true ↦ (gave_up, [])
  | false ↦ (finished, [])
]
retry_loop retries back_off (again ∷ rest) = elim (ltb 5 retries) [
  | true ↦ (gave_up, [])
  | false ↦ retry_loop retries 1 rest
]
retry_loop retries back_off (failed true ∷ rest) = elim (ltb 5 retries) [
  | true ↦ (gave_up, [])
  | false ↦ (quit, [])
]
retry_loop retries back_off (failed false ∷ rest) = elim (ltb 5 retries) [
  | true ↦ (gave_up, [])
  | false ↦ let r = retry_loop (retries + 1) (back_off * 2) rest in (r.0, back_off ∷ r.1)
]

-- `doWithBackOff`, on a client that has not quit; the first wait is a second.
unfoldable pub do_with_back_off : List Attempt → Verdict × List ℕ
do_with_back_off attempts = retry_loop 0 1 attempts

abbrev pub sum : List ℕ → ℕ
sum [] = 0
sum (n ∷ ns) = n + sum ns

-- The calls that fail.
abbrev pub failures : List Attempt → ℕ
failures [] = 0
failures (failed q ∷ rest) = suc (failures rest)
failures (done ∷ rest) = failures rest
failures (again ∷ rest) = failures rest

-- The longest wait after this many retries.
two_to : ℕ → ℕ
two_to zero = 1
two_to (suc n) = two_to n * 2

two_to-le : (n : ℕ) → n ≤ 6 → (two_to n ≤ 64) × (1 ≤ two_to n)
unfolding two_to
two_to-le zero h = omega arith
two_to-le (suc zero) h = omega arith
two_to-le (suc (suc zero)) h = omega arith
two_to-le (suc (suc (suc zero))) h = omega arith
two_to-le (suc (suc (suc (suc zero)))) h = omega arith
two_to-le (suc (suc (suc (suc (suc zero))))) h = omega arith
two_to-le (suc (suc (suc (suc (suc (suc zero)))))) h = omega arith
two_to-le (suc (suc (suc (suc (suc (suc (suc n))))))) h = absurd (omega arith)

-- The rounds of the loop, by what it answers.
record Within (retries : ℕ) (r : Verdict × List ℕ) : Type 0 where
  total : sum r.1 + two_to retries ≤ 64
  count : retries + length r.1 ≤ 6
  full : r.0 ≡ gave_up → retries + length r.1 ≡ 6

at_once : (retries : ℕ) (v : Verdict) → retries ≤ 5 → v ≢ gave_up → Within retries (v, [])
at_once retries v h w = record {
  total = omega (arith, two_to-le retries (omega arith));
  count = omega arith;
  full = λ e. absurd (w e);
}

stopped :
    (retries : ℕ) (r : Verdict × List ℕ)
    → 5 < retries
    → retries ≤ 6
    → r ≡ (gave_up, [])
    → Within retries r
stopped retries r over h e =
    subst (λ r. Within retries r) (sym e)
      (record {
        total = omega (arith, two_to-le retries h);
        count = omega arith;
        full = λ w. omega arith;
      })

add_one : (n : ℕ) → n + 1 ≡ suc n
add_one n = omega arith

double : (n b : ℕ) → b ≤ two_to n → b * 2 ≤ two_to (n + 1)
unfolding two_to
double n b h = rw (add_one n) (omega arith)

longer :
    (retries back_off : ℕ) (r : Verdict × List ℕ)
    → back_off ≤ two_to retries
    → Within (retries + 1) r
    → Within retries (r.0, back_off ∷ r.1)
unfolding two_to
longer retries back_off r b w =
    let twice : two_to (retries + 1) ≡ two_to retries * 2 = rw (add_one retries) refl in
    record {
      total = omega (arith, w.total, twice);
      count = omega (arith, w.count);
      full = λ e. omega (arith, w.full e);
    }

retry_loop-Within :
    (retries back_off : ℕ) (rest : List Attempt)
    → retries ≤ 6
    → back_off ≤ two_to retries
    → Within retries (retry_loop retries back_off rest)
unfolding retry_loop
retry_loop-Within retries back_off [] h b = elim (Bool-cases (ltb 5 retries)) [
  | inl over ↦ rw (over, retry_loop) (stopped retries (gave_up, []) (grind arith) h refl)
  | inr on ↦ rw (on, retry_loop) (at_once retries trying (grind arith) (λ e. ground arith))
]
retry_loop-Within retries back_off (done ∷ rest) h b = elim (Bool-cases (ltb 5 retries)) [
  | inl over ↦ rw (over, retry_loop) (stopped retries (gave_up, []) (grind arith) h refl)
  | inr on ↦ rw (on, retry_loop) (at_once retries finished (grind arith) (λ e. ground arith))
]
retry_loop-Within retries back_off (failed true ∷ rest) h b = elim (Bool-cases (ltb 5 retries)) [
  | inl over ↦ rw (over, retry_loop) (stopped retries (gave_up, []) (grind arith) h refl)
  | inr on ↦ rw (on, retry_loop) (at_once retries quit (grind arith) (λ e. ground arith))
]
retry_loop-Within retries back_off (again ∷ rest) h b = elim (Bool-cases (ltb 5 retries)) [
  | inl over ↦ rw (over, retry_loop) (stopped retries (gave_up, []) (grind arith) h refl)
  | inr on ↦
      rw (on, retry_loop) (retry_loop-Within retries 1 rest h (omega (arith, two_to-le retries h)))
]
retry_loop-Within retries back_off (failed false ∷ rest) h b = elim (Bool-cases (ltb 5 retries)) [
  | inl over ↦ rw (over, retry_loop) (stopped retries (gave_up, []) (grind arith) h refl)
  | inr on ↦
      let small : retries ≤ 5 = grind arith in
      let ih =
        retry_loop-Within (retries + 1) (back_off * 2) rest (omega arith)
          (double retries back_off b) in
      rw (on, retry_loop)
        (longer retries back_off (retry_loop (retries + 1) (back_off * 2) rest) b ih)
]

-- However the calls of the function come out, `doWithBackOff` waits at most six times and at most 63
-- seconds in all.
pub do_with_back_off-bounds :
    (attempts : List Attempt)
    → (sum (do_with_back_off attempts).1 ≤ 63) × (length (do_with_back_off attempts).1 ≤ 6)
unfolding do_with_back_off two_to
do_with_back_off-bounds attempts =
    let w = retry_loop-Within 0 1 attempts (omega arith) (omega arith) in
    (omega (arith, w.total), omega (arith, w.count))

-- Where `doWithBackOff` gives up, it has waited exactly six times.
pub do_with_back_off-gives_up :
    (attempts : List Attempt)
    → (do_with_back_off attempts).0 ≡ gave_up
    → length (do_with_back_off attempts).1 ≡ 6
unfolding do_with_back_off two_to
do_with_back_off-gives_up attempts e =
    let w = retry_loop-Within 0 1 attempts (omega arith) (omega arith) in omega (arith, w.full e)

retry_loop-ends :
    (retries back_off : ℕ) (rest : List Attempt)
    → 6 ≤ retries + failures rest
    → (retry_loop retries back_off rest).0 ≢ trying
unfolding retry_loop
retry_loop-ends retries back_off [] h e = ground arith
retry_loop-ends retries back_off (done ∷ rest) h e = ground arith
retry_loop-ends retries back_off (failed true ∷ rest) h e = ground arith
retry_loop-ends retries back_off (again ∷ rest) h e =
    ground (arith, retry_loop-ends retries 1 rest h)
retry_loop-ends retries back_off (failed false ∷ rest) h e =
    ground (arith, retry_loop-ends (retries + 1) (back_off * 2) rest (omega arith))

-- Six failing calls are enough for `doWithBackOff` to end, whatever else comes between them.
do_with_back_off-ends :
    (attempts : List Attempt) → 6 ≤ failures attempts → (do_with_back_off attempts).0 ≢ trying
unfolding do_with_back_off
do_with_back_off-ends attempts h = retry_loop-ends 0 1 attempts (omega arith)
