-- ===== src/Terminal/Guac/Streaming.antt =====
-- The parser of backend/src/terminal/guac-protocol.ts reads a stream the same however it is cut into
-- chunks.
use open_bastion.Base.{
  List, Option, Option-cases, [], ap, arith, inl, inr, length, length-append, none, refl, some,
  subst, suc, sym, true, zero, ℕ, ◌++◌, ◌<◌, ◌∙◌, ◌∷◌, ◌≡◌, ◌≢◌, ◌⊎◌,
}
use mathlib.Core.List.{append-nil, append_assoc}
use open_bastion.Terminal.Guac.{
  Instruction, Parsed, complete, incomplete, malformed, try_parse_one, prepend, feed_loop, feed,
}
use open_bastion.Terminal.Guac.Prefixes.{is_final, extend, parse_parts-append, length-parse_parts}

-- The loop of `feed` as it is written, with no bound on its rounds: from the buffer to the buffer
-- that it leaves, with the instructions or the exception.
pub data Runs : List ℕ → List ℕ → Option (List Instruction) → Type 0 where
  stops : {b : List ℕ} → try_parse_one b ≡ incomplete → Runs b b (some [])
  fails : {b : List ℕ} → try_parse_one b ≡ malformed → Runs b b none
  takes :
      {b rest left : List ℕ} {out : Option (List Instruction)} (i : Instruction)
      → try_parse_one b ≡ complete i rest
      → Runs rest left out
      → Runs b left (prepend i out)

parsed_cases :
    (x : Parsed)
    → (x ≡ incomplete)
      ⊎ ((x ≡ malformed) ⊎ ((i : Instruction) × (rest : List ℕ) × (x ≡ complete i rest)))
parsed_cases incomplete = inl refl
parsed_cases malformed = inr (inl refl)
parsed_cases (complete i rest) = inr (inr (i, rest, refl))

feed_loop-Runs :
    (fuel : ℕ) (b : List ℕ) → length b < fuel → Runs b (feed_loop fuel b).0 (feed_loop fuel b).1
unfolding feed_loop
feed_loop-Runs zero b h = absurd (omega arith)
feed_loop-Runs (suc fuel) b h = elim (parsed_cases (try_parse_one b)) [
  | inl e ↦ rw (feed_loop, e) (stops e)
  | inr (inl e) ↦ rw (feed_loop, e) (fails e)
  | inr (inr (i, rest, e)) ↦
      let shorter = length-parse_parts (length b) b rest [] i e in
      rw (feed_loop, e) (takes i e (feed_loop-Runs fuel rest (omega arith)))
]

-- `feed` ends: its loop reaches a buffer without a complete instruction, or one that is malformed.
pub feed-Runs :
    (buffer chunk : List ℕ) → Runs (buffer ++ chunk) (feed buffer chunk).0 (feed buffer chunk).1
unfolding feed
feed-Runs buffer chunk =
    feed_loop-Runs (suc (length (buffer ++ chunk))) (buffer ++ chunk) (omega arith)

try_parse_one-append :
    (b t : List ℕ)
    → is_final (try_parse_one b) ≡ true
    → try_parse_one (b ++ t) ≡ extend t (try_parse_one b)
unfolding try_parse_one
try_parse_one-append b t h =
    parse_parts-append (length b) (length (b ++ t)) b t [] (omega (arith, length-append b t)) h

-- The answers to two feeds, one after the other.
abbrev pub both : Option (List Instruction) → Option (List Instruction) → Option (List Instruction)
both none later = none
both (some []) later = later
both (some (i ∷ is)) later = prepend i (both (some is) later)

both-prepend :
    (i : Instruction) (out later : Option (List Instruction))
    → both (prepend i out) later ≡ prepend i (both out later)
both-prepend i none later = refl
both-prepend i (some is) later = refl

taken_with_more :
    (b rest t : List ℕ) (i : Instruction)
    → try_parse_one b ≡ complete i rest
    → try_parse_one (b ++ t) ≡ complete i (rest ++ t)
taken_with_more b rest t i e = try_parse_one-append b t (rw e refl) ∙ ap (extend t) e

Runs-append :
    (b left t left' : List ℕ) (out later : Option (List Instruction))
    → Runs b left out
    → out ≢ none
    → Runs (left ++ t) left' later
    → Runs (b ++ t) left' (both out later)
Runs-append b left t left' out later (stops e) h next = next
Runs-append b left t left' out later (fails e) h next = absurd (h refl)
Runs-append b left t left' out later (takes {rest = rest} {out = out'} i e run) h next =
    subst (Runs (b ++ t) left') (sym (both-prepend i out' later)) (
      takes i (taken_with_more b rest t i e)
        (Runs-append rest left t left' out' later run (λ z. h (ap (prepend i) z)) next))

prepend-none :
    (i : Instruction) (out : Option (List Instruction)) → prepend i out ≡ none → out ≡ none
prepend-none i none h = refl
prepend-none i (some is) h = cc

-- An exception does not go away when more text follows.
Runs-none :
    (b left t : List ℕ) (out : Option (List Instruction))
    → Runs b left out
    → out ≡ none
    → Runs (b ++ t) (left ++ t) none
Runs-none b left t out (stops e) h = cc
Runs-none b left t out (fails e) h = fails (try_parse_one-append b t (rw e refl) ∙ ap (extend t) e)
Runs-none b left t out (takes {rest = rest} {out = out'} i e run) h =
    takes i (taken_with_more b rest t i e) (Runs-none rest left t out' run (prepend-none i out' h))

pub Runs-end :
    (b left : List ℕ) (out : Option (List Instruction))
    → Runs b left out
    → out ≢ none
    → try_parse_one left ≡ incomplete
Runs-end b left out (stops e) h = e
Runs-end b left out (fails e) h = absurd (h refl)
Runs-end b left out (takes {rest = rest} {out = out'} i e run) h =
    Runs-end rest left out' run (λ z. h (ap (prepend i) z))

pub Runs-unique :
    (b left left' : List ℕ) (out out' : Option (List Instruction))
    → Runs b left out
    → Runs b left' out'
    → (left ≡ left') × (out ≡ out')
Runs-unique b left left' out out' (stops e) (stops f) = (refl, refl)
Runs-unique b left left' out out' (fails e) (fails f) = (refl, refl)
Runs-unique b left left' out out' (stops e) (fails f) = cc
Runs-unique b left left' out out' (stops e) (takes i f run) = cc
Runs-unique b left left' out out' (fails e) (stops f) = cc
Runs-unique b left left' out out' (fails e) (takes i f run) = cc
Runs-unique b left left' out out' (takes i e run) (stops f) = cc
Runs-unique b left left' out out' (takes i e run) (fails f) = cc
Runs-unique b left left' out out' (takes {rest = r} {out = o} i e run)
      (takes {rest = r'} {out = o'} j f run') =
    let same : complete i r ≡ complete j r' = sym e ∙ f in
    let same_rest : r ≡ r' = cc in
    let same_i : i ≡ j = cc in
    let (x, y) =
      Runs-unique r left left' o o' run (subst (λ q. Runs q left' o') (sym same_rest) run') in
    (x, λ k. prepend (same_i k) (y k))

-- The texts one after the other.
abbrev pub joined : List (List ℕ) → List ℕ
joined [] = []
joined (text ∷ texts) = text ++ joined texts

-- A call of `feed` for each chunk, up to the first exception.
unfoldable pub feed_all : List ℕ → List (List ℕ) → List ℕ × Option (List Instruction)
unfolding feed
feed_all buffer [] = (buffer, some [])
feed_all buffer (chunk ∷ chunks) =
    let (left, out) = feed buffer chunk in
    (elim out [
      | none ↦ (left, none)
      | some is ↦ let (left', later) = feed_all left chunks in (left', both (some is) later)
    ])

both-none : (is : List Instruction) → both (some is) none ≡ none
both-none [] = refl
both-none (i ∷ is) = ap (prepend i) (both-none is)

feed_all-Runs :
    (buffer : List ℕ) (chunks : List (List ℕ))
    → try_parse_one buffer ≡ incomplete
    → (left : List ℕ) × Runs (buffer ++ joined chunks) left (feed_all buffer chunks).1
      × ((feed_all buffer chunks).1 ≢ none → left ≡ (feed_all buffer chunks).0)
unfolding feed_all
feed_all-Runs buffer [] h = (buffer, rw (append-nil buffer) (stops h), λ _. refl)
feed_all-Runs buffer (chunk ∷ chunks) h = elim (Option-cases (feed buffer chunk).1) [
  | inl e ↦
      rw (feed_all, e, ← append_assoc buffer chunk (joined chunks))
        (
          (feed buffer chunk).0 ++ joined chunks,
          Runs-none (buffer ++ chunk) (feed buffer chunk).0 (joined chunks) (feed buffer chunk).1
              (feed-Runs buffer chunk) e,
          λ z. absurd (z refl),
        )
  | inr (is, e) ↦
      let read : Runs (buffer ++ chunk) (feed buffer chunk).0 (some is) =
        rw e at (feed-Runs buffer chunk) in
      let some_read : some is ≢ none = λ z. cc in
      let (left, run, same) =
        feed_all-Runs (feed buffer chunk).0 chunks
          (Runs-end (buffer ++ chunk) (feed buffer chunk).0 (some is) read some_read) in
      rw (feed_all, e, ← append_assoc buffer chunk (joined chunks))
        (
          left,
          Runs-append (buffer ++ chunk) (feed buffer chunk).0 (joined chunks) left (some is)
              (feed_all (feed buffer chunk).0 chunks).1 read some_read run,
          λ z. same (λ gone. z (ap (both (some is)) gone ∙ both-none is)),
        )
]

-- However a stream is cut into chunks, feeding them in turn to a buffer without a complete
-- instruction gives the instructions of feeding the whole at once, and leaves the same buffer; or
-- both end with an exception.
pub feed_all-feed :
    (buffer : List ℕ) (chunks : List (List ℕ))
    → try_parse_one buffer ≡ incomplete
    → ((feed_all buffer chunks).1 ≡ (feed buffer (joined chunks)).1)
      × ((feed buffer (joined chunks)).1 ≢ none
          → (feed_all buffer chunks).0 ≡ (feed buffer (joined chunks)).0)
feed_all-feed buffer chunks h =
    let (left, run, same) = feed_all-Runs buffer chunks h in
    let (same_left, same_out) =
      Runs-unique (buffer ++ joined chunks) left (feed buffer (joined chunks)).0
        (feed_all buffer chunks).1 (feed buffer (joined chunks)).1 run
        (feed-Runs buffer (joined chunks)) in
    (same_out, λ z. sym (same (λ gone. z (sym same_out ∙ gone))) ∙ same_left)
