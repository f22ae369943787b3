-- ===== src/Shift/Root.antt =====
-- `shift` stays in the network of the root.
use antop.Base.{ℕ, ◌≡◌, bit_or-zero}
use antop.Addr.{Addr}
use antop.Shift.{shift, zip_words, clear_words}

-- An address that is shifted, in either direction and by any number of places, has the first four
-- words of the root, for a hypercube of 64 dimensions.
pub shift-root :
    (izq_der cantidad : ℕ) (root addr : Addr)
    → let a = shift 64 izq_der cantidad root addr in
      (a.w0 ≡ root.w0) × (a.w1 ≡ root.w1) × (a.w2 ≡ root.w2) × (a.w3 ≡ root.w3)
unfolding shift zip_words clear_words
shift-root izq_der cantidad root addr =
    (bit_or-zero root.w0, bit_or-zero root.w1, bit_or-zero root.w2, bit_or-zero root.w3)
