-- ===== src/Glob/Runs.antt =====
-- A compiled glob, one character of the glob at a time: `put` adds a character to the first run,
-- and the regex changes accordingly.
use synapse_guardian.Prelude.{
  ℕ, zero, suc, ◌≡◌, refl, sym, ap, ◌∙◌, fun_ext, inl, inr, ◌≢◌, Bool, true, false, List, [], ◌∷◌,
  map, arith, Bool-cases, Text, has_char, false≢true,
}
use synapse_guardian.Unicode.{Unicode}
use synapse_guardian.Glob.{
  star, question_mark, is_wildcard, put, chunk_pieces, join_pieces, is_run, count,
}
use synapse_guardian.Glob.Regex.{literal, exactly, at_least, dots, any_dots, letter, matches}

abbrev pub Rest : Type 0
Rest = Text → Bool

any_dots-any_dots : (k : Rest) (s : Text) → any_dots (any_dots k) s ≡ any_dots k s
unfolding any_dots
any_dots-any_dots k [] = refl
any_dots-any_dots k (x ∷ s) = ground (arith, any_dots-any_dots k s)

any_dots-dot : (k : Rest) (s : Text) → any_dots (dots 1 k) s ≡ dots 1 (any_dots k) s
unfolding any_dots dots
any_dots-dot k [] = refl
any_dots-dot k (x ∷ []) = ground arith
any_dots-dot k (x ∷ y ∷ s) = ground (arith, any_dots-dot k (y ∷ s))

dots-suc : (n : ℕ) (k : Rest) (s : Text) → dots (suc n) k s ≡ dots 1 (dots n k) s
unfolding dots
dots-suc n k [] = refl
dots-suc n k (x ∷ s) = refl

any_dots-dots : (n : ℕ) (k : Rest) → any_dots (dots n k) ≡ dots n (any_dots k)
any_dots-dots zero k = fun_ext λ s. unfold dots in refl
any_dots-dots (suc n) k =
    ap any_dots (fun_ext (dots-suc n k))
    ∙ fun_ext (any_dots-dot (dots n k))
    ∙ ap (dots 1) (any_dots-dots n k)
    ∙ sym (fun_ext (dots-suc n (any_dots k)))

-- What `chunk_pieces` and `put` do, case by case.
plain : (chunk : Text) → is_run chunk ≡ false → chunk_pieces chunk ≡ map literal chunk
unfolding chunk_pieces
plain chunk r = rw r

starred :
    (chunk : Text)
    → is_run chunk ≡ true
    → has_char star chunk ≡ true
    → chunk_pieces chunk ≡ at_least (count question_mark chunk) ∷ []
unfolding chunk_pieces
starred chunk r h = rw (r, h)

starless :
    (chunk : Text)
    → is_run chunk ≡ true
    → has_char star chunk ≡ false
    → chunk_pieces chunk ≡ exactly (count question_mark chunk) ∷ []
unfolding chunk_pieces
starless chunk r h = rw (r, h)

put-grows :
    (c x : ℕ) (chunk : Text) (chunks : List Text)
    → is_wildcard c ≡ is_wildcard x
    → put c ((x ∷ chunk) ∷ chunks) ≡ (c ∷ x ∷ chunk) ∷ chunks
unfolding put
put-grows c x chunk chunks e = ground arith

put-opens :
    (c x : ℕ) (chunk : Text) (chunks : List Text)
    → is_wildcard c ≢ is_wildcard x
    → put c ((x ∷ chunk) ∷ chunks) ≡ (c ∷ []) ∷ (x ∷ chunk) ∷ chunks
unfolding put
put-opens c x chunk chunks e = ground arith

module _ ⦃u : Unicode⦄ where
  at_least-any : (n : ℕ) (k : Rest) → dots n (any_dots k) ≡ any_dots (dots n (any_dots k))
  at_least-any n k =
      sym (any_dots-dots n (any_dots k) ∙ ap (dots n) (fun_ext (any_dots-any_dots k)))

  -- what the chunks of a glob match
  unfoldable pub accepts : List Text → Rest
  accepts chunks = matches (join_pieces chunks)

  accepts-star : (chunks : List Text) → accepts ((star ∷ []) ∷ chunks) ≡ any_dots (accepts chunks)
  unfolding accepts matches join_pieces chunk_pieces is_run is_wildcard has_char count
  accepts-star chunks = refl

  accepts-question :
      (chunks : List Text) → accepts ((question_mark ∷ []) ∷ chunks) ≡ dots 1 (accepts chunks)
  unfolding accepts matches join_pieces chunk_pieces is_run is_wildcard has_char count
  accepts-question chunks = refl

  accepts-starred :
      (chunk : Text) (chunks : List Text)
      → is_run chunk ≡ true
      → has_char star chunk ≡ true
      → accepts (chunk ∷ chunks) ≡ dots (count question_mark chunk) (any_dots (accepts chunks))
  unfolding accepts matches join_pieces
  accepts-starred chunk chunks r h = rw (starred chunk r h)

  accepts-starless :
      (chunk : Text) (chunks : List Text)
      → is_run chunk ≡ true
      → has_char star chunk ≡ false
      → accepts (chunk ∷ chunks) ≡ dots (count question_mark chunk) (accepts chunks)
  unfolding accepts matches join_pieces
  accepts-starless chunk chunks r h = rw (starless chunk r h)

  accepts-letter :
      (c : ℕ) (chunk : Text) (chunks : List Text)
      → is_wildcard c ≡ false
      → is_run chunk ≡ false
      → accepts ((c ∷ chunk) ∷ chunks) ≡ letter c (accepts (chunk ∷ chunks))
  unfolding accepts matches join_pieces is_run
  accepts-letter c chunk chunks w r = rw (plain (c ∷ chunk) w, plain chunk r)

  accepts-empty : (chunks : List Text) → accepts ([] ∷ chunks) ≡ accepts chunks
  unfolding accepts join_pieces chunk_pieces is_run
  accepts-empty chunks = refl

  -- a wildcard in front of a run of wildcards
  star-run :
      (x : ℕ) (chunk : Text) (chunks : List Text)
      → is_wildcard x ≡ true
      → accepts ((star ∷ x ∷ chunk) ∷ chunks) ≡ any_dots (accepts ((x ∷ chunk) ∷ chunks))
  unfolding is_run is_wildcard has_char count
  star-run x chunk chunks w = elim (Bool-cases (has_char star (x ∷ chunk))) [
    | inl h ↦
        accepts-starred (star ∷ x ∷ chunk) chunks refl refl
        ∙ at_least-any (count question_mark (x ∷ chunk)) (accepts chunks)
        ∙ ap any_dots (sym (accepts-starred (x ∷ chunk) chunks w h))
    | inr h ↦
        accepts-starred (star ∷ x ∷ chunk) chunks refl refl
        ∙ sym (any_dots-dots (count question_mark (x ∷ chunk)) (accepts chunks))
        ∙ ap any_dots (sym (accepts-starless (x ∷ chunk) chunks w h))
  ]

  question-run :
      (x : ℕ) (chunk : Text) (chunks : List Text)
      → is_wildcard x ≡ true
      → accepts ((question_mark ∷ x ∷ chunk) ∷ chunks) ≡ dots 1 (accepts ((x ∷ chunk) ∷ chunks))
  unfolding is_run is_wildcard has_char count
  question-run x chunk chunks w = elim (Bool-cases (has_char star (x ∷ chunk))) [
    | inl h ↦
        accepts-starred (question_mark ∷ x ∷ chunk) chunks refl h
        ∙ fun_ext (dots-suc (count question_mark (x ∷ chunk)) (any_dots (accepts chunks)))
        ∙ ap (dots 1) (sym (accepts-starred (x ∷ chunk) chunks w h))
    | inr h ↦
        accepts-starless (question_mark ∷ x ∷ chunk) chunks refl h
        ∙ fun_ext (dots-suc (count question_mark (x ∷ chunk)) (accepts chunks))
        ∙ ap (dots 1) (sym (accepts-starless (x ∷ chunk) chunks w h))
  ]

  pub accepts-put-star :
      (chunks : List Text) → accepts (put star chunks) ≡ any_dots (accepts chunks)
  unfolding put
  accepts-put-star [] = accepts-star []
  accepts-put-star ([] ∷ chunks) = accepts-star chunks ∙ ap any_dots (sym (accepts-empty chunks))
  accepts-put-star ((x ∷ chunk) ∷ chunks) = elim (Bool-cases (is_wildcard x)) [
    | inl w ↦
        ap accepts (put-grows star x chunk chunks (unfold is_wildcard in sym w))
        ∙ star-run x chunk chunks w
    | inr w ↦
        ap accepts
          (put-opens star x chunk chunks (λ e. unfold is_wildcard in false≢true (sym w ∙ sym e)))
        ∙ accepts-star ((x ∷ chunk) ∷ chunks)
  ]

  pub accepts-put_question :
      (chunks : List Text) → accepts (put question_mark chunks) ≡ dots 1 (accepts chunks)
  unfolding put
  accepts-put_question [] = accepts-question []
  accepts-put_question ([] ∷ chunks) =
      accepts-question chunks ∙ ap (dots 1) (sym (accepts-empty chunks))
  accepts-put_question ((x ∷ chunk) ∷ chunks) = elim (Bool-cases (is_wildcard x)) [
    | inl w ↦
        ap accepts (put-grows question_mark x chunk chunks (unfold is_wildcard in sym w))
        ∙ question-run x chunk chunks w
    | inr w ↦
        ap accepts (
          put-opens question_mark x chunk chunks
            (λ e. unfold is_wildcard in false≢true (sym w ∙ sym e)))
        ∙ accepts-question ((x ∷ chunk) ∷ chunks)
  ]

  pub accepts-put-letter :
      (c : ℕ) (chunks : List Text)
      → is_wildcard c ≡ false
      → accepts (put c chunks) ≡ letter c (accepts chunks)
  unfolding put is_run
  accepts-put-letter c [] h = accepts-letter c [] [] h refl ∙ ap (letter c) (accepts-empty [])
  accepts-put-letter c ([] ∷ chunks) h = accepts-letter c [] chunks h refl
  accepts-put-letter c ((x ∷ chunk) ∷ chunks) h = elim (Bool-cases (is_wildcard x)) [
    | inl w ↦
        ap accepts (put-opens c x chunk chunks (λ e. false≢true (sym h ∙ e ∙ w)))
        ∙ accepts-letter c [] ((x ∷ chunk) ∷ chunks) h refl
        ∙ ap (letter c) (accepts-empty ((x ∷ chunk) ∷ chunks))
    | inr w ↦
        ap accepts (put-grows c x chunk chunks (h ∙ sym w))
        ∙ accepts-letter c (x ∷ chunk) chunks h w
  ]
