-- ===== src/ComplexReader/Bytes.antt =====
-- Byte by byte, what the copy of a packet does to the buffer of
-- hds_udp/connection/HDS_UDP_Complex_Connection.cpp.
use native.Mathlib.Decide.{dec_lt}
use test_resend.Prelude.{
  ℕ, zero, suc, ◌+◌, ◌-◌, ◌≤◌, ◌<◌, ◌≡◌, refl, ap, ap₂, ◌∙◌, arith, List, [], ◌∷◌, ◌++◌, length,
  take, drop, get_or, min, length-take, if◌then◌else◌, ltb,
}
use test_resend.Connection.{memcpy_at}
use test_resend.SimpleTransfer.Chunks.{chunk, length-chunk}

-- Lists of one length that agree at every place are equal.
pub equal_by_bytes :
    (xs ys : List ℕ)
    → length xs ≡ length ys
    → ((i : ℕ) → i < length ys → get_or xs i 0 ≡ get_or ys i 0)
    → xs ≡ ys
equal_by_bytes [] [] h e = refl
equal_by_bytes [] (y ∷ ys) h e = absurd (omega arith)
equal_by_bytes (x ∷ xs) [] h e = absurd (omega arith)
equal_by_bytes (x ∷ xs) (y ∷ ys) h e =
    ap₂ ◌∷◌ (e 0 (omega arith))
      (equal_by_bytes xs ys (omega arith) (λ i k. e (suc i) (omega arith)))

get_or-append :
    (xs ys : List ℕ) (i : ℕ)
    → get_or (xs ++ ys) i 0
      ≡ (if ltb i (length xs) then get_or xs i 0 else get_or ys (i - length xs) 0)
get_or-append [] ys i = ground arith
get_or-append (x ∷ xs) ys zero = ground arith
get_or-append (x ∷ xs) ys (suc i) = ground (arith, get_or-append xs ys i)

get_or-take : (n : ℕ) (xs : List ℕ) (i : ℕ) → i < n → get_or (take n xs) i 0 ≡ get_or xs i 0
get_or-take zero xs i h = absurd (omega arith)
get_or-take (suc n) [] i h = refl
get_or-take (suc n) (x ∷ xs) zero h = refl
get_or-take (suc n) (x ∷ xs) (suc i) h = get_or-take n xs i (omega arith)

get_or-drop : (n : ℕ) (xs : List ℕ) (i : ℕ) → get_or (drop n xs) i 0 ≡ get_or xs (n + i) 0
get_or-drop zero xs i = ground arith
get_or-drop (suc n) [] i = ground arith
get_or-drop (suc n) (x ∷ xs) i = ground (arith, get_or-drop n xs i)

module _ (seq : ℕ) (message buf : List ℕ) (same : length buf ≡ length message)
    (within : seq < length message) (i : ℕ) (here : i < length message) where
  bytes : List ℕ
  bytes = chunk message seq

  rest : List ℕ
  rest = drop (seq + length bytes) buf

  copied : ℕ
  copied = get_or (memcpy_at seq bytes buf) i 0

  before : i < seq → copied ≡ get_or buf i 0
  unfolding copied bytes memcpy_at rest
  before h = ground (
    arith,
    get_or-append (take seq buf) (bytes ++ rest) i,
    length-take seq buf,
    get_or-take seq buf i,
  )

  middle : seq ≤ i → i < seq + length bytes → copied ≡ get_or message i 0
  unfolding copied bytes memcpy_at rest
  middle h k =
      let place : seq + (i - seq) ≡ i = omega arith in
      ground (
        arith,
        get_or-append (take seq buf) (bytes ++ rest) i,
        length-take seq buf,
        get_or-append bytes rest (i - length (take seq buf)),
        length-chunk message seq,
        get_or-take (min (length message - seq) 1452) (drop seq message)
            (i - length (take seq buf)),
        get_or-drop seq message (i - length (take seq buf)),
        ap (λ j. get_or message j 0) place,
      )

  after : seq + length bytes ≤ i → copied ≡ get_or buf i 0
  unfolding copied bytes memcpy_at rest
  after h =
      let first : ℕ = i - length (take seq buf) in
      let place : seq + length bytes + (first - length bytes) ≡ i =
        omega (arith, length-take seq buf) in
      ground (
        arith,
        get_or-append (take seq buf) (bytes ++ rest) i,
        length-take seq buf,
        get_or-append bytes rest first,
        get_or-drop (seq + length bytes) buf (first - length bytes),
        ap (λ j. get_or buf j 0) place,
      )

  -- The packet's own places hold the message.
  pub copied_right :
      seq ≤ i
      → i < seq + 1452
      → get_or (memcpy_at seq (chunk message seq) buf) i 0 ≡ get_or message i 0
  unfolding copied bytes
  copied_right h k = middle h (omega (arith, length-chunk message seq))

  -- A place that was right stays right.
  pub stays_right :
      get_or buf i 0 ≡ get_or message i 0
      → get_or (memcpy_at seq (chunk message seq) buf) i 0 ≡ get_or message i 0
  unfolding copied bytes
  stays_right e = elim (dec_lt i seq) [
    | yes h ↦ before h ∙ e
    | no h ↦ elim (dec_lt i (seq + length bytes)) [
      | yes k ↦ middle (omega arith) k
      | no k ↦ after (omega arith) ∙ e
    ]
  ]
