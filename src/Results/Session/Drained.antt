-- ===== src/Results/Session/Drained.antt =====
-- The answers after which the results page waits for none.
use ais_store.Prelude.{
  ℕ, zero, suc, ◌<◌, ◌%◌, some, List, [], ◌∷◌, ◌≡◌, refl, sym, arith, foldl, length, get_elem?,
  remove_at, total, total-append, total-remove_at,
}
use ais_store.Service.{Browser}
use ais_store.Results.{RepoFile, Answer}
use ais_store.Results.Session.{
  Pending, listing, deletion, Session, answer, list_files, answered, step,
}

-- The answers that a request needs: that of a deletion is followed by a listing.
abbrev pub answers_left : Pending → ℕ
answers_left listing = 1
answers_left deletion = 2

get_elem?-lt {ℓ} :
    {A : Type ℓ} (xs : List A) (k : ℕ) → k < length xs → (x : A) × (get_elem? xs k ≡ some x)
get_elem?-lt [] k h = absurd (omega arith)
get_elem?-lt (x ∷ xs) zero h = (x, refl)
get_elem?-lt (x ∷ xs) (suc k) h = get_elem?-lt xs k (omega arith)

none_left : (ps : List Pending) → total answers_left ps ≡ 0 → ps ≡ []
none_left [] h = refl
none_left (listing ∷ ps) h = absurd (omega arith)
none_left (deletion ∷ ps) h = absurd (omega arith)

some_left : (ps : List Pending) (m : ℕ) → total answers_left ps ≡ suc m → 0 < length ps
some_left [] m h = absurd (omega arith)
some_left (p ∷ ps) m h = omega arith

module _ {W : Type 0} (b : Browser W) where
  -- One of the pending requests is answered: the one at `k`, counted round and round.
  abbrev pub answer_any : Session → ℕ × Answer (List RepoFile) → Session
  answer_any s (k, reply) = step b s (answer (k % length s.pending) reply)

  answered-left :
      (k : ℕ) (reply : Answer (List RepoFile)) (p : Pending) (s : Session)
      → get_elem? s.pending k ≡ some p
      → total answers_left s.pending
        ≡ suc (total answers_left (answered b k reply (some p) s).pending)
  unfolding answered list_files
  answered-left k reply listing s e = omega (arith, total-remove_at answers_left k s.pending e)
  answered-left k reply deletion s e = omega (
    arith,
    total-remove_at answers_left k s.pending e,
    total-append answers_left (remove_at k s.pending) (listing ∷ []),
  )

  answer_any-left :
      (s : Session) (k : ℕ) (reply : Answer (List RepoFile))
      → 0 < length s.pending
      → total answers_left s.pending ≡ suc (total answers_left (answer_any s (k, reply)).pending)
  unfolding step
  answer_any-left s k reply h =
      let i = k % length s.pending in
      let (p, e) = get_elem?-lt s.pending i (grind arith) in rw e (answered-left i reply p s e)

  -- In whatever order the backend answers, and whether it fails or not, the page waits for none any
  -- more after one answer for each pending request and one for the listing that follows each pending
  -- deletion, if nothing else is requested meanwhile.
  pub foldl-answer_any :
      (answers : List (ℕ × Answer (List RepoFile))) (s : Session)
      → length answers ≡ total answers_left s.pending
      → (foldl answer_any s answers).pending ≡ []
  foldl-answer_any [] s h = none_left s.pending (sym h)
  foldl-answer_any ((k, reply) ∷ answers) s h =
      let more = some_left s.pending (length answers) (sym h) in
      foldl-answer_any answers (answer_any s (k, reply))
        (omega (arith, answer_any-left s k reply more))
