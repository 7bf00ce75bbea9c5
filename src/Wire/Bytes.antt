-- ===== src/Wire/Bytes.antt =====
-- A word written by hds_udp/common/HDS_WriteCDR.h and read by HDS_ReadCDR.h.
use test_resend.Prelude.{
  ℕ, ◌+◌, ◌/◌, ◌%◌, ◌^◌, ◌≤◌, ◌<◌, ◌≡◌, ◌⊎◌, refl, ◌==◌, if◌then◌else◌, arith, List, length, get_or,
  set, length-set, get_or-set, ◌∙◌,
}
use test_resend.Wire.{put_word, get_word}

pub length-put_word : (p x : ℕ) (buf : List ℕ) → length (put_word p x buf) ≡ length buf
unfolding put_word
length-put_word p x buf =
    length-set _ (p + 3) _ ∙ length-set _ (p + 2) _ ∙ length-set _ (p + 1) _ ∙ length-set buf p _

-- Each byte after a write.
byte-put_word :
    (p x j : ℕ) (buf : List ℕ)
    → p + 4 ≤ length buf
    → get_or (put_word p x buf) j 0 ≡ (
        if p + 3 == j
        then x / 16777216 % 256
        else if p + 2 == j
        then x / 65536 % 256
        else if p + 1 == j
        then x / 256 % 256
        else if p == j
        then x % 256
        else get_or buf j 0)
unfolding put_word
byte-put_word p x j buf h =
    rw
      (
        get_or-set
            (set (set (set buf p (x % 256)) (p + 1) (x / 256 % 256)) (p + 2) (x / 65536 % 256))
            (p + 3) j (x / 16777216 % 256) 0
            (omega (
              arith,
              length-set (set (set buf p (x % 256)) (p + 1) (x / 256 % 256)) (p + 2)
                  (x / 65536 % 256),
              length-set (set buf p (x % 256)) (p + 1) (x / 256 % 256),
              length-set buf p (x % 256),
            )),
        get_or-set (set (set buf p (x % 256)) (p + 1) (x / 256 % 256)) (p + 2) j (x / 65536 % 256) 0
            (omega (
              arith,
              length-set (set buf p (x % 256)) (p + 1) (x / 256 % 256),
              length-set buf p (x % 256),
            )),
        get_or-set (set buf p (x % 256)) (p + 1) j (x / 256 % 256) 0
            (omega (arith, length-set buf p (x % 256))),
        get_or-set buf p j (x % 256) 0 (omega arith),
      )
      refl

-- A word is read back as it was written.
pub get_word-put_word_self :
    (p x : ℕ) (buf : List ℕ) → p + 4 ≤ length buf → x < 2 ^ 32 → get_word p (put_word p x buf) ≡ x
unfolding get_word
get_word-put_word_self p x buf h hx = ground (
  arith,
  byte-put_word p x p buf,
  byte-put_word p x (p + 1) buf,
  byte-put_word p x (p + 2) buf,
  byte-put_word p x (p + 3) buf,
)

-- A write leaves the words beside it alone.
pub get_word-put_word_ne :
    (p q x : ℕ) (buf : List ℕ)
    → p + 4 ≤ length buf
    → (p + 4 ≤ q) ⊎ (q + 4 ≤ p)
    → get_word q (put_word p x buf) ≡ get_word q buf
unfolding get_word
get_word-put_word_ne p q x buf h apart = ground (
  arith,
  byte-put_word p x q buf,
  byte-put_word p x (q + 1) buf,
  byte-put_word p x (q + 2) buf,
  byte-put_word p x (q + 3) buf,
)
