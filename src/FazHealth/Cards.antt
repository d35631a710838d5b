-- ===== src/FazHealth/Cards.antt =====
-- What a poll leaves in the cache, and what the other processes see of it.
use t_log.Shared.{
  ℕ, suc, length, Option, none, some, List, [], ◌∷◌, String, ◌==◌, ◌≡◌, refl, ap, ◌∙◌, sym,
  if◌then◌else◌, default, Bool-cases, Option-cases, inl, inr,
}
use t_log.Shared.Dict.{Dict, get, or_else, put_all, get-put, get-put_all, IsUnique}
use t_log.FazHealth.{
  Limits, Card, Target, card_of, poll_one, poll_cards, State, poll_all_targets, read_through,
  cached_or, blank_card, shown, all_shown, get_all_cached,
}

module _ (limits : Limits) (round : ℕ → ℕ) (now later : String) where
  -- The card that one target gives a label, and the last one that the targets give it.
  abbrev pub gives : String → Option String → Target → Option Card
  gives l none t = none
  gives l (some label) t =
      if label == ""
      then none
      else if label == l
      then some (card_of limits round now later label t)
      else none

  abbrev pub last_card : String → List Target → Option Card
  last_card l [] = none
  last_card l (t ∷ ts) = or_else (last_card l ts) (gives l t.label t)

  or_else_assoc : (a b c : Option Card) → or_else (or_else a b) c ≡ or_else a (or_else b c)
  or_else_assoc none b c = refl
  or_else_assoc (some x) b c = refl

  get-poll_one :
      (l : String) (o : Option String) (t : Target) (cache : Dict Card)
      → get l (poll_one limits round now later o t cache) ≡ or_else (gives l o t) (get l cache)
  unfolding poll_one
  get-poll_one l none t cache = refl
  get-poll_one l (some label) t cache = elim (Bool-cases (label == "")) [
    | inl blank ↦ rw blank refl
    | inr filled ↦ elim (Bool-cases (label == l)) [
      | inl same ↦ rw (filled, get-put, same) refl
      | inr other ↦ rw (filled, get-put, other) refl
    ]
  ]

  get-poll_cards :
      (l : String) (ts : List Target) (cache : Dict Card)
      → get l (poll_cards limits round now later ts cache) ≡ or_else (last_card l ts) (get l cache)
  unfolding poll_cards
  get-poll_cards l [] cache = refl
  get-poll_cards l (t ∷ ts) cache =
      get-poll_cards l ts (poll_one limits round now later t.label t cache)
      ∙ ap (or_else (last_card l ts)) (get-poll_one l t.label t cache)
      ∙ sym (or_else_assoc (last_card l ts) (gives l t.label t) (get l cache))

  -- After a poll the card of a label is the one that its last target gives it in this poll, whatever
  -- happens to the other targets, or else the one that it had; the stored snapshot is the cache.
  pub poll_all_targets-card :
      (targets : List Target) (s : State) (l : String)
      → (get l (poll_all_targets limits round now later targets s).cache
          ≡ or_else (last_card l targets) (get l s.cache))
        × ((poll_all_targets limits round now later targets s).stored
            ≡ some (poll_all_targets limits round now later targets s).cache)
  unfolding poll_all_targets
  poll_all_targets-card targets s l = (get-poll_cards l targets s.cache, refl)

or_else-none : (o : Option Card) → or_else o none ≡ o
or_else-none none = refl
or_else-none (some c) = refl

cached_or-ext :
    (gray : Card) (o : Option String) (c d : Dict Card)
    → ((l : String) → get l c ≡ get l d)
    → cached_or gray o c ≡ cached_or gray o d
unfolding cached_or
cached_or-ext gray none c d same = refl
cached_or-ext gray (some label) c d same = ap (λ x. default x gray) (same label)

all_shown-ext :
    (c d : Dict Card) (ts : List Target)
    → ((l : String) → get l c ≡ get l d)
    → all_shown c ts ≡ all_shown d ts
unfolding all_shown shown
all_shown-ext c d [] same = refl
all_shown-ext c d (t ∷ ts) same =
    ap (λ x. x ∷ all_shown c ts) (cached_or-ext _ t.label c d same)
    ∙ ap (λ xs. shown d t ∷ xs) (all_shown-ext c d ts same)

read_through-get :
    (cache : Dict Card) (l : String)
    → IsUnique cache
    → get l (read_through [] (some cache)) ≡ get l (read_through cache (some cache))
unfolding read_through get
read_through-get [] l unique = refl
read_through-get (c ∷ cache) l unique =
    get-put_all l [] (c ∷ cache) unique ∙ or_else-none (get l (c ∷ cache))

-- A card of a target: the one that the cache has for its label, or a gray one with the label, the host
-- and the ADOM of the target where the cache has none.
pub data CardOf (cache : Dict Card) (t : Target) (c : Card) : Type 0 where
  polled : (label : String) → t.label ≡ some label → get label cache ≡ some c → CardOf cache t c
  gray :
      ((label : String) → t.label ≡ some label → get label cache ≡ none)
      → c.label ≡ t.label
      → c.host ≡ default t.host ""
      → c.adom ≡ default t.adom "root"
      → c.status ≡ "gray"
      → CardOf cache t c

-- One card for each target, in the order of the targets.
abbrev pub CardsOf : Dict Card → List Target → List Card → Type 0
CardsOf cache [] [] = Unit
CardsOf cache [] (c ∷ cards) = ⊥
CardsOf cache (t ∷ targets) [] = ⊥
CardsOf cache (t ∷ targets) (c ∷ cards) = CardOf cache t c × CardsOf cache targets cards

gray_card : Target → Card
unfolding blank_card
gray_card t = blank_card t.label (default t.host "") (default t.adom "root") "gray" none none

cached_or-CardOf :
    (cache : Dict Card) (t : Target) (o : Option String)
    → t.label ≡ o
    → CardOf cache t (cached_or (gray_card t) o cache)
unfolding cached_or gray_card
cached_or-CardOf cache t none e = gray (λ label given. absurd (cc (e, given))) refl refl refl refl
cached_or-CardOf cache t (some label) e = elim (Option-cases (get label cache)) [
  | inl unread ↦ rw unread (
      gray (λ other given. let same : label ≡ other = cc (e, given) in rw (← same) unread) refl refl
        refl refl)
  | inr (c, read) ↦ rw read (polled label e read)
]

all_shown-CardsOf :
    (cache : Dict Card) (targets : List Target) → CardsOf cache targets (all_shown cache targets)
unfolding all_shown shown gray_card
all_shown-CardsOf cache [] = tt
all_shown-CardsOf cache (t ∷ targets) =
    (cached_or-CardOf cache t t.label refl, all_shown-CardsOf cache targets)

read_through_self : (cache : Dict Card) → read_through cache (some cache) ≡ cache
unfolding read_through put_all
read_through_self [] = refl
read_through_self (c ∷ cache) = refl

-- A process with an empty cache shows the same cards as one that holds the cache which was stored last,
-- for every list of configured targets. Both show one card for each target, in the order of the list:
-- the stored one of its label, or a gray one with its label, host and ADOM. No label stands twice in
-- the cache.
pub get_all_cached-stored :
    (targets : List Target) (cache : Dict Card)
    → IsUnique cache
    → ((get_all_cached targets (record { cache = []; stored = some cache })).1
        ≡ (get_all_cached targets (record { cache = cache; stored = some cache })).1)
      × CardsOf cache targets
          (get_all_cached targets (record { cache = cache; stored = some cache })).1
unfolding get_all_cached
get_all_cached-stored targets cache unique = (
  all_shown-ext _ _ targets (λ l. read_through-get cache l unique),
  rw (read_through_self cache) (all_shown-CardsOf cache targets),
)

length-all_shown : (c : Dict Card) (ts : List Target) → length (all_shown c ts) ≡ length ts
unfolding all_shown
length-all_shown c [] = refl
length-all_shown c (t ∷ ts) = ap suc (length-all_shown c ts)

pub length-get_all_cached :
    (targets : List Target) (s : State) → length (get_all_cached targets s).1 ≡ length targets
unfolding get_all_cached
length-get_all_cached targets s = length-all_shown _ targets
