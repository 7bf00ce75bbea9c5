-- ===== src/SimpleTransfer/Chunks.antt =====
-- The bytes of a packet of hds_udp/connection/HDS_UDP_Simple_Connection.cpp, and what
-- `memcpy(reader->_transmit_buf+seq,…)` makes of the reader's buffer.
use native.Mathlib.Decide.{dec_lt}
use test_resend.Prelude.{
  ℕ, ◌+◌, ◌-◌, ◌≤◌, ◌<◌, ◌^◌, ◌≡◌, refl, sym, ap, ap₂, ◌∙◌, arith, List, [], ◌∷◌, ◌++◌, length,
  take, drop, length-append, length-take, length-drop, take-append_le, take-append_ge, take_all,
  take-add, min, zero, suc,
}
use test_resend.Connection.{copy_size, memcpy_at}

-- The bytes that go into the packet at `seq`.
abbrev pub chunk : List ℕ → ℕ → List ℕ
chunk message seq = take (min (length message - seq) 1452) (drop seq message)

pub copy_size_lem : (seq n : ℕ) → seq ≤ n → n < 2 ^ 32 → copy_size seq n ≡ min (n - seq) 1452
unfolding copy_size
copy_size_lem seq n h k = ground arith

pub length-chunk :
    (message : List ℕ) (seq : ℕ) → length (chunk message seq) ≡ min (length message - seq) 1452
length-chunk message seq = omega (
  arith,
  length-take (min (length message - seq) 1452) (drop seq message),
  length-drop seq message,
)

pub length-memcpy_at :
    (seq : ℕ) (bytes buf : List ℕ)
    → seq + length bytes ≤ length buf
    → length (memcpy_at seq bytes buf) ≡ length buf
unfolding memcpy_at
length-memcpy_at seq bytes buf h = omega (
  arith,
  length-append (take seq buf) (bytes ++ drop (seq + length bytes) buf),
  length-append bytes (drop (seq + length bytes) buf),
  length-take seq buf,
  length-drop (seq + length bytes) buf,
)

take-memcpy_at :
    (seq : ℕ) (bytes buf : List ℕ)
    → seq + length bytes ≤ length buf
    → take (seq + length bytes) (memcpy_at seq bytes buf) ≡ take seq buf ++ bytes
unfolding memcpy_at
take-memcpy_at seq bytes buf h =
    take-append_ge (seq + length bytes) (take seq buf) _ (omega (arith, length-take seq buf))
    ∙ ap (λ t. take seq buf ++ t)
        (ap (λ k. take k (bytes ++ drop (seq + length bytes) buf))
            (omega (arith, length-take seq buf))
          ∙ take-append_le (length bytes) bytes _ (omega arith)
          ∙ take_all (length bytes) bytes (omega arith))

-- A longer prefix settles a shorter one.
take_shorter : (a b : ℕ) (xs ys : List ℕ) → a ≤ b → take b xs ≡ take b ys → take a xs ≡ take a ys
take_shorter zero b xs ys h e = refl
take_shorter (suc a) zero xs ys h e = absurd (omega arith)
take_shorter (suc a) (suc b) [] [] h e = refl
take_shorter (suc a) (suc b) [] (y ∷ ys) h e = cc
take_shorter (suc a) (suc b) (x ∷ xs) [] h e = cc
take_shorter (suc a) (suc b) (x ∷ xs) (y ∷ ys) h e =
    ap₂ ◌∷◌ (ap (head_or x) e) (take_shorter a b xs ys (omega arith) (ap tail e))
  where
    head_or : ℕ → List ℕ → ℕ
    head_or d [] = d
    head_or d (z ∷ zs) = z

    tail : List ℕ → List ℕ
    tail [] = []
    tail (z ∷ zs) = zs

-- Copying the right bytes at the end of a right prefix gives a right prefix, one packet longer.
pub prefix_grows :
    (seq : ℕ) (message buf : List ℕ)
    → length buf ≡ length message
    → seq < length message
    → take seq buf ≡ take seq message
    → take (seq + 1452) (memcpy_at seq (chunk message seq) buf) ≡ take (seq + 1452) message
prefix_grows seq message buf hl hs e = elim (dec_lt (length message - seq) 1452) [
  | yes last ↦
      take_all (seq + 1452) new (omega (arith, size))
      ∙ sym (take_all (length message) new (omega (arith, size)))
      ∙ ap (λ k. take k new) (omega (arith, length-chunk message seq))
      ∙ grown
      ∙ ap (λ k. take k message) (omega (arith, length-chunk message seq))
      ∙ take_all (length message) message (omega arith)
      ∙ sym (take_all (seq + 1452) message (omega arith))
  | no full ↦
      ap (λ k. take k new) (omega (arith, length-chunk message seq))
      ∙ grown
      ∙ ap (λ k. take k message) (omega (arith, length-chunk message seq))
]
  where
    new : List ℕ
    new = memcpy_at seq (chunk message seq) buf

    size : length new ≡ length message
    size =
        length-memcpy_at seq (chunk message seq) buf (omega (arith, length-chunk message seq)) ∙ hl

    grown :
        take (seq + length (chunk message seq)) new
        ≡ take (seq + length (chunk message seq)) message
    grown =
        take-memcpy_at seq (chunk message seq) buf (omega (arith, length-chunk message seq))
        ∙ ap (λ t. t ++ chunk message seq) e
        ∙ sym (take-add seq (min (length message - seq) 1452) message)
        ∙ ap (λ k. take (seq + k) message) (sym (length-chunk message seq))
