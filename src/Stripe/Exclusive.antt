-- ===== src/Stripe/Exclusive.antt =====
-- stripe/stripe.go: enough items end up on locations that no other item has.
use scat.Prelude.{
  ℕ, ◌+◌, ◌≤◌, ◌<◌, min, ◌≡◌, refl, ap, ◌∙◌, ◌≢◌, ◌⊎◌, inl, inr, Bool, true, false, some, [], ◌∷◌,
  arith, ◌==◌, if◌then◌else◌, Bool-cases, length,
}
use scat.Prelude.Dict.{lookup, insert, has, IsUnique, has-insert, Locs}
use scat.Stripe.RoundRobin.{Rr}
use scat.Stripe.{S, Config, Loop, locs_of, done, begin, pass, start, exclusives, stripe, delete_all}
use scat.Stripe.Filling.{Filled, same, more, Fills}
use scat.Stripe.Passes.{
  pass-Passed, pass-cons, length-insert_new, locs_of-insert, locs_of-InDests, Filled-Grows,
}
use scat.Stripe.Placement.{stripe-Ran, Ran-InDests, locs_of-drop_got}
use scat.Stripe.Keyed.{Ran-IsKeyed}
use scat.Stripe.Alone.{IsAlone, exclusives-IsAlone}

abbrev Enough : Config → S → Type 0
Enough cfg s = min cfg.excl (length s) ≤ exclusives s

Filled-Enough :
    (cfg : Config) (dests : Locs) (it : ℕ) {s t : S}
    → Filled cfg dests it s t
    → has it s ≡ true
    → (length t ≡ length s) × ((t ≡ s) ⊎ Enough cfg t)
Filled-Enough cfg dests it (same e) h = (ap length e, inl e)
Filled-Enough cfg dests it (more {s = s} {t = t} a f) h =
    let sized : length t ≡ length s =
      rw a.written (length-insert_new it (insert a.new tt (locs_of s it)) s ∙ rw h) in
    let there : has it t ≡ true =
      rw a.written (ground (arith, has-insert it it (insert a.new tt (locs_of s it)) s)) in
    let (sized', after) = Filled-Enough cfg dests it f there in
    (
      sized' ∙ sized,
      elim after [ inl kept ↦ inr (rw kept (rw sized a.enough)) | inr enough ↦ inr enough ],
    )

begin-res :
    (got : Locs) (it : ℕ) (l : Loop)
    → (begin got it l).res ≡ (if has it l.res then l.res else insert it [] l.res)
unfolding begin
begin-res got it l = refl

Filled-absent :
    (cfg : Config) (dests : Locs) (it j : ℕ) {s t : S}
    → Filled cfg dests it s t
    → it ≢ j
    → has j s ≡ false
    → has j t ≡ false
Filled-absent cfg dests it j (same e) ne h = rw e h
Filled-absent cfg dests it j (more {s = s} {t = t} a f) ne h =
    Filled-absent cfg dests it j f ne
      (rw a.written (ground (arith, has-insert it j (insert a.new tt (locs_of s it)) s)))

-- The last item that a pass visits.
abbrev last_item : ℕ → S → ℕ
last_item it [] = it
last_item it ((j, got) ∷ items) = last_item j items

-- After the first pass every item has an entry, and the last one was left short or was filled
-- with enough exclusive items.
record First (cfg : Config) (items s t : S) (z : ℕ) : Type 0 where
  sized : length t ≡ length s + length items
  ended : Enough cfg t ⊎ (length (locs_of t z) < cfg.min_copies)

First-step :
    (cfg : Config) (dests got : Locs) (it : ℕ) (l k : Loop)
    → 0 < cfg.min_copies
    → has it l.res ≡ false
    → Fills cfg true dests it (begin got it l).res k.res
    → First cfg ((it, got) ∷ []) l.res k.res it
First-step cfg dests got it l k positive absent f =
    let made : (begin got it l).res ≡ insert it [] l.res = begin-res got it l ∙ rw absent in
    let there : has it (begin got it l).res ≡ true =
      rw made (ground (arith, has-insert it it [] l.res)) in
    let (sized, after) = Filled-Enough cfg dests it f.chain there in
    let empty : locs_of (begin got it l).res it ≡ [] =
      rw made (ground (arith, locs_of-insert it it [] l.res)) in
    record {
      sized = sized ∙ ap length made ∙ ground (arith, length-insert_new it [] l.res);
      ended = elim after [ inl kept ↦ inr (rw (kept, empty) positive) | inr enough ↦ inl enough ];
    }

other-absent :
    (cfg : Config) (dests got : Locs) (it i : ℕ) (l k : Loop)
    → Fills cfg true dests it (begin got it l).res k.res
    → it ≢ i
    → has i l.res ≡ false
    → has i k.res ≡ false
other-absent cfg dests got it i l k filled ne h =
    Filled-absent cfg dests it i filled.chain ne
      (rw (begin-res got it l) (ground (arith, has-insert it i [] l.res)))

First-pass :
    (fuel : ℕ) (cfg : Config) (dests got : Locs) (it : ℕ) (items : S) (l m : Loop)
    → 0 < cfg.min_copies
    → IsUnique ((it, got) ∷ items)
    → ((j : ℕ) → has j ((it, got) ∷ items) ≡ true → has j l.res ≡ false)
    → pass fuel cfg true dests ((it, got) ∷ items) l ≡ done m
    → First cfg ((it, got) ∷ items) l.res m.res (last_item it items)
unfolding pass has
First-pass fuel cfg dests got it [] l m positive u absent e =
    let (k, filled, rest) = pass-cons fuel cfg true dests got it [] l m e in
    let ended : m ≡ k = ground arith in
    rw ended (First-step cfg dests got it l k positive (absent it (ground arith)) filled)
First-pass fuel cfg dests got it ((j, had) ∷ items) l m positive u absent e =
    let (k, filled, rest) = pass-cons fuel cfg true dests got it ((j, had) ∷ items) l m e in
    let step = First-step cfg dests got it l k positive (absent it (ground arith)) filled in
    let unvisited : (i : ℕ) → has i ((j, had) ∷ items) ≡ true → has i k.res ≡ false = λ i h.
      other-absent cfg dests got it i l k filled (λ same. ground (arith, u.0))
        (ground (arith, absent i)) in
    let later = First-pass fuel cfg dests had j items k m positive u.1 unvisited rest in
    record { sized = omega (arith, step.sized, later.sized); ended = later.ended }

-- The second pass restores what the first left open.
second-pass :
    (fuel : ℕ) (cfg : Config) (dests : Locs) (items : S) (l m : Loop) (z : ℕ)
    → ((j : ℕ) → has j items ≡ true → has j l.res ≡ true)
    → Enough cfg l.res ⊎ ((length (locs_of l.res z) < cfg.min_copies) × (has z items ≡ true))
    → pass fuel cfg false dests items l ≡ done m
    → (length m.res ≡ length l.res) × Enough cfg m.res
unfolding pass has
second-pass fuel cfg dests [] l m z there (inl enough) e =
    let ended : m ≡ l = ground arith in rw ended (refl, enough)
second-pass fuel cfg dests [] l m z there (inr (few, listed)) e = absurd (ground arith)
second-pass fuel cfg dests ((it, got) ∷ items) l m z there state e =
    let (k, filled, rest) = pass-cons fuel cfg false dests got it items l m e in
    let kept : (begin got it l).res ≡ l.res = begin-res got it l ∙ rw (there it (ground arith)) in
    let (sized, after) =
      Filled-Enough cfg dests it filled.chain (rw kept (there it (ground arith))) in
    let grown = Filled-Grows cfg dests it filled.chain in
    let still : (j : ℕ) → has j items ≡ true → has j k.res ≡ true =
      λ j h. grown.items_kept j (rw kept (there j (ground arith))) in
    let next : Enough cfg k.res
        ⊎ ((length (locs_of k.res z) < cfg.min_copies) × (has z items ≡ true)) =
      elim after [
        | inr enough ↦ inl enough
        | inl alike ↦ elim state [
          | inl enough ↦ inl (rw (alike, kept) enough)
          | inr (few, listed) ↦ elim (Bool-cases (it == z)) [
            | inl own ↦
                absurd
                  (ground (arith, filled.full refl, ap (λ s. length (locs_of s z)) (alike ∙ kept)))
            | inr other ↦ inr (rw (alike, kept) few, ground arith)
          ]
        ]
      ] in
    let (sized', enough') = second-pass fuel cfg dests items k m z still next rest in
    (sized' ∙ sized ∙ ap length kept, enough')

has-last_item :
    (it : ℕ) (got : Locs) (items : S) → has (last_item it items) ((it, got) ∷ items) ≡ true
unfolding has
has-last_item it got [] = ground arith
has-last_item it got ((j, had) ∷ items) = ground (arith, has-last_item j had items)

same_truth : (a b : Bool) → (a ≡ true → b ≡ true) → (b ≡ true → a ≡ true) → a ≡ b
same_truth a b f g = ground arith

-- The locations that were counted for the items of a group: an entry for each of its items and no
-- other, with at least `Min` distinct destinations. What the item is given are these locations
-- less those that it had.
pub record Counted (cfg : Config) (s : S) (dests : Locs) (res full : S) : Type 0 where
  pub one_each : IsUnique full × (length full ≡ length s)
  pub keyed : (it : ℕ) → has it full ≡ has it s
  pub distinct : (it : ℕ) → IsUnique (locs_of full it)
  pub at_dests : (it l : ℕ) → has l (locs_of full it) ≡ true → has l dests ≡ true
  pub enough : (it : ℕ) → has it s ≡ true → cfg.min_copies ≤ length (locs_of full it)
  pub given :
      (it : ℕ) (got : Locs)
      → lookup it s ≡ some got
      → locs_of res it ≡ delete_all got (locs_of full it)

-- When `Stripe` succeeds for a group of at least one item, with at least one copy asked for: of
-- the group's items, with the locations that were counted for them, at least `Excl` (or all of
-- them, if there are fewer) have a set of locations that no other item has. The counted locations
-- of each item are at least `Min` distinct destinations; what it is given are these less those
-- that it had, so for an item that had none they are all of them.
pub stripe-exclusives :
    (fuel : ℕ) (cfg : Config) (s : S) (dests : Locs) (seq : Rr) {seq' : Rr} {res : S}
    → IsUnique s
    → s ≢ []
    → 0 < cfg.min_copies
    → stripe fuel cfg s dests seq ≡ done (res, seq')
    → (full : S) × Counted cfg s dests res full
      × ((alone : Locs) × IsUnique alone
          × (min cfg.excl (length s) ≤ length alone)
          × ((a : ℕ) → has a alone ≡ true → IsAlone full a))
unfolding has
stripe-exclusives fuel cfg [] dests seq u ne positive e = absurd (ne refl)
stripe-exclusives fuel cfg ((it, got) ∷ s) dests seq {seq'} {res} u ne positive e =
    let items : S = (it, got) ∷ s in
    let r = stripe-Ran fuel cfg items dests seq seq' res e in
    let one =
      First-pass fuel cfg dests got it s (start items dests seq) r.middle positive u (λ j h. refl)
        r.first_pass in
    let passed =
      pass-Passed fuel cfg true dests items (start items dests seq) r.middle r.first_pass in
    let open_at : Enough cfg r.middle.res
        ⊎ ((length (locs_of r.middle.res (last_item it s)) < cfg.min_copies)
            × (has (last_item it s) items ≡ true)) =
      elim one.ended [ inl enough ↦ inl enough | inr few ↦ inr (few, has-last_item it got s) ] in
    let (sized, enough) =
      second-pass fuel cfg dests items r.middle r.last (last_item it s) passed.all_there open_at
        r.second_pass in
    let total : length r.last.res ≡ length items = omega (arith, sized, one.sized) in
    let keyed = Ran-IsKeyed r in
    let second = pass-Passed fuel cfg false dests items r.middle r.last r.second_pass in
    let full = r.last.res in
    let sets = λ (j : ℕ). (locs_of-InDests dests full j (Ran-InDests r)).0 in
    let (alone, distinct, counted, each) = exclusives-IsAlone full keyed.0 sets in
    let enough' : min cfg.excl (length items) ≤ exclusives full = rw (← total) enough in
    (
      full,
      record {
        one_each = (keyed.0, total);
        keyed = λ j. same_truth (has j full) (has j items) (keyed.1 j) (second.all_there j);
        distinct = sets;
        at_dests = λ j. (locs_of-InDests dests full j (Ran-InDests r)).1;
        enough = λ j h. second.all_full j h refl;
        given = λ j had h. rw r.returned (locs_of-drop_got items full j had u h);
      },
      (alone, distinct, rw counted enough', each),
    )
