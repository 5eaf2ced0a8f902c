-- ===== src/Sockets/Read.antt =====
-- What `ReadData` reads.
use mqtt_broker.Common.{
  ℕ, ◌+◌, ◌-◌, ◌≤◌, ◌≡◌, ◌≢◌, ◌⊎◌, refl, sym, ap, List, [], ◌∷◌, ◌++◌, length, length-append,
  append_assoc, append-nil, true, false, leb, ◌==◌, Bool-cases, inl, inr, none, some, arith,
}
use mathlib.Core.Path.{subst}
use mqtt_broker.Sockets.{
  Answer, select_failed, timed_out, read_failed, got, ReadIn, read_loop, read_data,
}

-- The bytes that arrive before the first pause or failure.
abbrev pub at_once : List Answer → List ℕ
at_once [] = []
at_once (got chunk ∷ answers) = chunk ++ at_once answers
at_once (_ ∷ answers) = []

-- `read` returns no more bytes than it is asked for.
abbrev pub IsBounded : ℕ → List Answer → Type 0
IsBounded left [] = Unit {0}
IsBounded left (got chunk ∷ answers) =
    (length chunk ≤ left) × IsBounded (left - length chunk) answers
IsBounded left (_ ∷ answers) = Unit {0}

-- Nothing can arrive where nothing is asked for.
at_once-full : (answers : List Answer) → IsBounded 0 answers → at_once answers ≡ []
at_once-full [] h = refl
at_once-full (got [] ∷ answers) (h, hs) = at_once-full answers hs
at_once-full (got (x ∷ chunk) ∷ answers) (h, hs) = absurd (omega arith)
at_once-full (_ ∷ answers) h = refl

-- All that arrives at once is stored and counted, up to `size` bytes; -1 is returned with too few.
abbrev pub Reads : ℕ → List ℕ → ReadIn → Type 0
Reads size bytes r =
    (r.bytes ≡ bytes)
    × (length bytes ≤ size)
    × ((r.result ≡ some (length bytes)) ⊎ ((r.result ≡ none) × (length bytes ≢ size)))

read_loop-Reads :
    (answers : List Answer) (size : ℕ) (buf : List ℕ)
    → length buf ≤ size
    → size ≢ length buf
    → IsBounded (size - length buf) answers
    → Reads size (buf ++ at_once answers) (read_loop answers size (length buf) buf)
unfolding read_loop
read_loop-Reads [] size buf h n b = rw (append-nil buf) (refl, h, inl refl)
read_loop-Reads (select_failed ∷ answers) size buf h n b =
    rw (append-nil buf) (refl, h, inr (refl, λ e. n (sym e)))
read_loop-Reads (timed_out ∷ answers) size buf h n b = rw (append-nil buf) (refl, h, inl refl)
read_loop-Reads (read_failed ∷ answers) size buf h n b = rw (append-nil buf) (refl, h, inl refl)
read_loop-Reads (got chunk ∷ answers) size buf h n (b, bs) =
    elim (Bool-cases (leb size (length buf + length chunk))) [
      | inl full ↦
          rw
            (
              full,
              at_once-full answers (subst (λ left. IsBounded left answers) (nothing_left full) bs),
              append-nil chunk,
            )
            (refl, fits, inl (ap some (sym (length-append buf chunk))))
      | inr more ↦
          rw (more, ← length-append buf chunk, ← append_assoc buf chunk (at_once answers))
            (read_loop-Reads answers size (buf ++ chunk) fits (unfilled more)
              (subst (λ left. IsBounded left answers) same_left bs))
    ]
  where
    nothing_left :
        leb size (length buf + length chunk) ≡ true → size - length buf - length chunk ≡ 0
    nothing_left full = ground arith

    fits : length (buf ++ chunk) ≤ size
    fits = omega (arith, h, b, length-append buf chunk)

    unfilled : leb size (length buf + length chunk) ≡ false → size ≢ length (buf ++ chunk)
    unfilled more = ground (arith, length-append buf chunk)

    same_left : size - length buf - length chunk ≡ size - length (buf ++ chunk)
    same_left = omega (arith, length-append buf chunk)

-- `ReadData` stores all the bytes that arrive before the first moment at which the socket has none,
-- or fails, and no others, and never more than `size`. It returns their number, or -1 with fewer
-- bytes than `size`. `read` returns no more bytes than it is asked for.
pub read_data-Reads :
    (answers : List Answer) (size : ℕ)
    → IsBounded size answers
    → Reads size (at_once answers) (read_data answers size)
unfolding read_data
read_data-Reads answers size b = elim (Bool-cases (size == 0)) [
  | inl z ↦
      rw (z, at_once-full answers (subst (λ left. IsBounded left answers) (empty z) b))
        (refl, omega arith, inl refl)
  | inr p ↦ rw p (
      read_loop-Reads answers size [] (omega arith) (positive p)
        (subst (λ left. IsBounded left answers) all_left b))
]
  where
    all_left : size ≡ size - 0
    all_left = omega arith

    empty : (size == 0) ≡ true → size ≡ 0
    empty z = ground arith

    positive : (size == 0) ≡ false → size ≢ 0
    positive p = ground arith
