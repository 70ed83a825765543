-- ===== src/Pipe/Frames.antt =====
-- pkg/util/pipe/pipes.go, `cutAndWriteMessage`: a message is sent in frames of bounded size. The
-- connection is a parameter: a state, and a write that says whether it succeeded.
use mathlib.Core.List.{flatten, append-nil}
use native.Mathlib.Nat.{
  mod-lt, div-add-mod, zero-mul, le-div_iff_mul-le, div-lt_iff_lt-mul, le_of_eq,
}
use choerodon_cluster_agent.Base.{
  ℕ, zero, suc, ◌+◌, ◌-◌, ◌*◌, ◌/◌, ◌≤◌, ◌<◌, ◌≡◌, refl, sym, ap, Bool, true, false, List, [], ◌∷◌,
  ◌++◌, arith, ltb, if◌then◌else◌, length, take, drop, All, take-append-drop, drop-drop, drop_all,
  take_all, length-take, length-drop, Bool-cases, inl, inr,
}
use choerodon_cluster_agent.Base.Text.{Text}

-- `message[start:end]`
abbrev pub slice : Text → ℕ → ℕ → Text
slice m start end = take (end - start) (drop start m)

-- MaxMessageSize
abbrev pub max_message_size : ℕ
max_message_size = 524288

-- The end of the frame that begins at `i * size`.
abbrev frame_end : ℕ → ℕ → ℕ → ℕ
frame_end size i n = if ltb ((i + 1) * size) n then (i + 1) * size else n

module _ {C : Type 0} (write : C → Text → C × Bool) where
  -- `for i := 0; i < loopTime; i++`, by the rounds left.
  pub cut_loop : ℕ → ℕ → ℕ → Text → C → C × Bool
  cut_loop size zero i m c = (c, true)
  cut_loop size (suc r) i m c =
      let w = write c (slice m (i * size) (frame_end size i (length m))) in
      elim w.1 [ true ↦ cut_loop size r (i + 1) m w.0 | false ↦ w ]

  -- `cutAndWriteMessage`, for any limit.
  pub cut_and_write : ℕ → Text → C → C × Bool
  unfolding cut_loop
  cut_and_write size m c =
      if ltb (length m) size then write c m else cut_loop size (length m / size + 1) 0 m c

  unfoldable pub cut_and_write_message : Text → C → C × Bool
  unfolding cut_and_write
  cut_and_write_message m c = cut_and_write max_message_size m c

  -- Frames written in turn, up to the first that fails.
  unfoldable pub write_all : List Text → C → C × Bool
  write_all [] c = (c, true)
  write_all (f ∷ fs) c = let w = write c f in elim w.1 [ true ↦ write_all fs w.0 | false ↦ w ]

-- The frames of the loop.
frames_from : ℕ → ℕ → ℕ → Text → List Text
frames_from size zero i m = []
frames_from size (suc r) i m =
    slice m (i * size) (frame_end size i (length m)) ∷ frames_from size r (i + 1) m

pub frames : ℕ → Text → List Text
unfolding frames_from
frames size m = if ltb (length m) size then m ∷ [] else frames_from size (length m / size + 1) 0 m

module _ {C : Type 0} (write : C → Text → C × Bool) where
  cut_loop-eq-write_all :
      (size r i : ℕ) (m : Text) (c : C)
      → cut_loop write size r i m c ≡ write_all write (frames_from size r i m) c
  unfolding cut_loop write_all frames_from
  cut_loop-eq-write_all size zero i m c = refl
  cut_loop-eq-write_all size (suc r) i m c =
      let f = slice m (i * size) (frame_end size i (length m)) in
      ground (arith, cut_loop-eq-write_all size r (i + 1) m (write c f).0)

  -- The message is sent as its frames in order, up to the first write that fails.
  pub cut_and_write-eq-write_all :
      (size : ℕ) (m : Text) (c : C)
      → cut_and_write write size m c ≡ write_all write (frames size m) c
  unfolding cut_and_write write_all frames
  cut_and_write-eq-write_all size m c =
      ground (arith, cut_loop-eq-write_all size (length m / size + 1) 0 m c)

-- The two ways to the end of a frame: a whole frame, or the rest of the message.
flatten-whole :
    (size start : ℕ) (m : Text)
    → take (start + size - start) (drop start m) ++ drop (start + size) m ≡ drop start m
flatten-whole size start m =
    let e : start + size - start ≡ size = omega arith in
    rw (e, ← drop-drop size start m) (take-append-drop size (drop start m))

flatten-rest :
    (size start : ℕ) (m : Text)
    → length m ≤ start + size
    → take (length m - start) (drop start m) ++ drop (start + size) m ≡ drop start m
flatten-rest size start m h =
    rw (drop_all (start + size) m h, append-nil)
      (take_all (length m - start) (drop start m) (omega (arith, length-drop start m)))

frame-append :
    (size i : ℕ) (m : Text)
    → slice m (i * size) (frame_end size i (length m)) ++ drop ((i + 1) * size) m
      ≡ drop (i * size) m
frame-append size i m =
    let next : (i + 1) * size ≡ i * size + size = grind arith in
    elim (Bool-cases (ltb ((i + 1) * size) (length m))) [
      | inl more ↦ rw more (rw next (flatten-whole size (i * size) m))
      | inr last ↦ rw last (rw next (flatten-rest size (i * size) m (ground arith)))
    ]

frames_from-flatten :
    (size r i : ℕ) (m : Text)
    → length m ≤ (i + r) * size
    → flatten (frames_from size r i m) ≡ drop (i * size) m
unfolding frames_from flatten
frames_from-flatten size zero i m h =
    let e : i + 0 ≡ i = omega arith in sym (drop_all (i * size) m (rw e at h))
frames_from-flatten size (suc r) i m h =
    let e : i + suc r ≡ i + 1 + r = omega arith in
    rw (frames_from-flatten size r (i + 1) m (rw e at h)) (frame-append size i m)

frame-le-size :
    (size i : ℕ) (m : Text) → length (slice m (i * size) (frame_end size i (length m))) ≤ size
frame-le-size size i m =
    let next : (i + 1) * size ≡ i * size + size = grind arith in
    let short : frame_end size i (length m) - i * size ≤ size = ground arith in
    omega (arith, length-take (frame_end size i (length m) - i * size) (drop (i * size) m))

frames_from-bounded :
    (size r i : ℕ) (m : Text) → All (λ f. length f ≤ size) (frames_from size r i m)
unfolding frames_from
frames_from-bounded size zero i m = tt
frames_from-bounded size (suc r) i m =
    (frame-le-size size i m, frames_from-bounded size r (i + 1) m)

rounds_suffice : (n size : ℕ) → 0 < size → n ≤ (0 + (n / size + 1)) * size
rounds_suffice n size h = grind (arith, div-add-mod n size, mod-lt n h)

frames-flatten : (size : ℕ) (m : Text) → 0 < size → flatten (frames size m) ≡ m
unfolding frames flatten
frames-flatten size m h = elim (Bool-cases (ltb (length m) size)) [
  | inl small ↦ rw small (append-nil m)
  | inr large ↦ rw large (
      rw zero-mul at
        (frames_from-flatten size (length m / size + 1) 0 m (rounds_suffice (length m) size h)))
]

frames-bounded : (size : ℕ) (m : Text) → All (λ f. length f ≤ size) (frames size m)
unfolding frames
frames-bounded size m = elim (Bool-cases (ltb (length m) size)) [
  | inl small ↦ rw small (ground arith, tt)
  | inr large ↦ rw large (frames_from-bounded size (length m / size + 1) 0 m)
]

-- A message goes out as frames of at most `MaxMessageSize` bytes whose concatenation is the message,
-- in order and up to the first write that fails, whatever the connection does.
pub cut_and_write_message-lossless :
    {C : Type 0} (write : C → Text → C × Bool) (m : Text) (c : C)
    → (cut_and_write_message write m c ≡ write_all write (frames max_message_size m) c)
      × (flatten (frames max_message_size m) ≡ m)
      × All (λ f. length f ≤ max_message_size) (frames max_message_size m)
unfolding cut_and_write_message
cut_and_write_message-lossless write m c = (
  cut_and_write-eq-write_all write max_message_size m c,
  frames-flatten max_message_size m (omega arith),
  frames-bounded max_message_size m,
)

frames_from-last :
    (size r i : ℕ) (m : Text)
    → frames_from size (suc r) i m
      ≡ frames_from size r i m ++ slice m ((i + r) * size) (frame_end size (i + r) (length m)) ∷ []
unfolding frames_from
frames_from-last size zero i m = let e : i + 0 ≡ i = omega arith in rw e
frames_from-last size (suc r) i m =
    let e : i + suc r ≡ i + 1 + r = omega arith in
    rw e (
      ap (λ fs. slice m (i * size) (frame_end size i (length m)) ∷ fs)
        (frames_from-last size r (i + 1) m))

-- A message whose length is a positive multiple of the limit is followed by an empty frame.
pub frames-empty_last :
    (size k : ℕ) (m : Text)
    → 0 < size
    → length m ≡ suc k * size
    → (fs : List Text) × (frames size m ≡ fs ++ [] ∷ [])
unfolding frames
frames-empty_last size k m h e =
    let large : ltb (length m) size ≡ false = grind arith in
    let q : length m / size + 1 ≡ suc (suc k) = omega (
      arith,
      (le-div_iff_mul-le {x = suc k} {y = length m} h).1 (le_of_eq (sym e)),
      (div-lt_iff_lt-mul {x = length m} {y = suc (suc k)} h).1 (grind arith),
    ) in
    let start : (0 + suc k) * size ≡ length m = grind arith in
    let past : ltb ((0 + suc k + 1) * size) (length m) ≡ false = grind arith in
    let none_left : length m - length m ≡ 0 = omega arith in
    (
      frames_from size (suc k) 0 m,
      rw (large, q, frames_from-last size (suc k) 0 m, past, start, none_left),
    )
