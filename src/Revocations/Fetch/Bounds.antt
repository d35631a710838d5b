-- ===== src/Revocations/Fetch/Bounds.antt =====
-- What a fetch of the revocations can end in, and that it ends.
use t_log.Shared.{
  ℕ, zero, suc, ◌+◌, ◌*◌, ◌-◌, ◌≤◌, ◌<◌, min, true, false, Option, none, some, List, [], ◌∷◌, ◌++◌,
  ◌≡◌, refl, ap, sym, ◌∙◌, ltb, length, take, drop, length-append, take-drop, arith, Bool-cases,
  inl, inr,
}
use mathlib.Core.List.{append_assoc, append-nil}
use t_log.Revocations.Fetch.{
  Fetched, whole, too_slow, too_large, broken, chunk_size, count_of, is_end, deadline, take_chunk,
  read_body,
}

take-is_end : (n : ℕ) (xs : List ℕ) → 0 < n → is_end (take n xs) ≡ true → xs ≡ []
unfolding is_end
take-is_end zero xs h e = absurd (omega arith)
take-is_end (suc n) [] h e = refl
take-is_end (suc n) (x ∷ xs) h e = absurd (cc)

not_end-take : (n : ℕ) (xs : List ℕ) → is_end (take n xs) ≡ false → 0 < length (take n xs)
unfolding is_end
not_end-take zero xs e = absurd (cc)
not_end-take (suc n) [] e = absurd (cc)
not_end-take (suc n) (x ∷ xs) e = omega arith

length-take-le : (n : ℕ) (xs : List ℕ) → length (take n xs) ≤ n
length-take-le zero xs = omega arith
length-take-le (suc n) [] = omega arith
length-take-le (suc n) (x ∷ xs) = omega (arith, length-take-le n xs)

module _ (max_body : ℕ) (clock : ℕ → ℕ) (timeout : ℕ) (size : ℕ → Option ℕ) where
  -- The first `n` readings of the clock after the start are not past the deadline.
  abbrev pub InTime : ℕ → Type 0
  InTime n = (k : ℕ) → k < n → clock (suc k) ≤ clock 0 + 2 * timeout

  -- The end of the loop, for a response. What was read took `n` reads of 8192 bytes
  -- at most, and the end of the response one more.
  abbrev pub Ends : List ℕ → Fetched → Type 0
  Ends response (whole body) =
      (body ≡ response)
      × (length response ≤ max_body)
      × ((n : ℕ) × (length response ≤ n * 8192) × InTime (suc n))
  Ends response too_large =
      (max_body < length response) × ((n : ℕ) × (max_body < n * 8192) × InTime n)
  Ends response too_slow = (n : ℕ) × (clock 0 + 2 * timeout < clock (suc n))
  Ends response broken = (n : ℕ) × (size n ≡ none)

  InTime-suc : (n : ℕ) → InTime n → clock (suc n) ≤ clock 0 + 2 * timeout → InTime (suc n)
  InTime-suc n before now k h = elim (Bool-cases (ltb k n)) [
    | inl less ↦ before k (ground (arith, less))
    | inr last ↦ let same : k ≡ n = ground (arith, last, h) in rw same now
  ]

  abbrev Ended : List ℕ → Option Fetched → Type 0
  Ended response o = (end : Fetched) × (o ≡ some end) × Ends response end

  take_chunk-Ended :
      (next : List ℕ → List ℕ → Option Fetched) (n : ℕ) (body rest : List ℕ) (o : Option ℕ)
      → size n ≡ o
      → length body ≤ max_body
      → length body ≤ n * 8192
      → InTime (suc n)
      → ((body' rest' : List ℕ)
          → length body < length body'
          → length body' ≤ suc n * 8192
          → body' ++ rest' ≡ body ++ rest
          → Ended (body ++ rest) (next body' rest'))
      → Ended (body ++ rest) (take_chunk max_body clock timeout size next body rest o)
  unfolding take_chunk
  take_chunk-Ended next n body rest none raised fits few in_time later = (broken, refl, (n, raised))
  take_chunk-Ended next n body rest (some found) read fits few in_time later =
      let k = count_of found (min chunk_size (max_body + 1 - length body)) in
      elim (Bool-cases (is_end (take k rest))) [
        | inl e ↦
            let gone : rest ≡ [] = take-is_end k rest (omega arith) e in
            let all : body ≡ body ++ rest = rw gone (sym (append-nil body)) in
            (whole body, rw e refl, (all, rw (← all) fits, (n, rw (← all) few, in_time)))
        | inr e ↦
            let more = not_end-take k rest e in
            rw e (
              later (body ++ take k rest) (drop k rest)
                (omega (arith, more, length-append body (take k rest)))
                (omega (arith, few, length-take-le k rest, length-append body (take k rest)))
                (append_assoc body (take k rest) (drop k rest)
                  ∙ ap (λ xs. body ++ xs) (take-drop k rest)))
      ]

  read_body-Ended :
      (fuel n : ℕ) (body rest : List ℕ)
      → max_body < length body + fuel
      → length body ≤ n * 8192
      → InTime n
      → Ended (body ++ rest) (read_body max_body clock timeout size (suc fuel) n body rest)
  unfolding read_body
  read_body-Ended zero n body rest enough few in_time =
      let over : ltb max_body (length body) ≡ true = ground (arith, enough) in
      rw over (
        too_large,
        refl,
        (ground (arith, enough, length-append body rest), (n, ground (arith, over, few), in_time)),
      )
  read_body-Ended (suc fuel) n body rest enough few in_time =
      elim (Bool-cases (ltb max_body (length body))) [
        | inl over ↦ rw over (
          too_large,
          refl,
          (ground (arith, over, length-append body rest), (n, ground (arith, over, few), in_time)),
        )
        | inr fits ↦
            elim (Bool-cases (ltb (deadline max_body clock timeout size) (clock (suc n)))) [
              | inl late ↦ rw (fits, late) (too_slow, refl, (n, ground (arith, late)))
              | inr early ↦
                  let now_in_time : InTime (suc n) = InTime-suc n in_time (ground (arith, early)) in
                  rw (fits, early)
                    (take_chunk-Ended (read_body max_body clock timeout size (suc fuel) (suc n)) n
                      body rest (size n) refl (ground (arith, fits)) few now_in_time
                      λ body' rest' longer few' same.
                        let more : max_body < length body' + fuel = omega (arith, enough, longer) in
                        rw same at (read_body-Ended fuel (suc n) body' rest' more few' now_in_time))
            ]
      ]

  -- With one round for each byte that is allowed and two more the loop of a fetch always ends, for any
  -- response, any sizes of its reads and any clock. It gives the whole response only where that has at
  -- most the allowed bytes, and is too large only where it has more; both only where the clock was in
  -- time before each of the reads, which are so many that 8192 bytes for each are enough for what was
  -- read. Otherwise the deadline had passed at a reading of the clock, or a read raised.
  pub read_body-Ends :
      (response : List ℕ)
      → (end : Fetched) × (read_body max_body clock timeout size (suc (suc max_body)) 0 [] response
          ≡ some end)
        × Ends response end
  read_body-Ends response =
      read_body-Ended (suc max_body) 0 [] response (omega arith) (omega arith)
        (λ k h. absurd (omega (arith, h)))
