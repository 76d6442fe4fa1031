-- ===== src/Stores/Striping/Begun.antt =====
-- stores/stripe/stripe.go: the striping proc that `New` makes from the stores' listings.
use scat.Prelude.{
  ℕ, ◌≡◌, refl, sym, ap, ◌∙◌, ◌≢◌, ◌↔◌, inl, inr, false, Option, none, List, [], ◌∷◌, arith, All,
}
use scat.Errors.{Error}
use scat.Stores.Quota.{Man, resources}
use scat.Stores.Copies.{Reg, list, contains}
use scat.Prelude.Dict.{lookup, has}
use scat.Stores.Mem.{LsEntry}
use scat.Stores.Listing.{
  Lister, add_copy, add_quota, add_all, add_entries, add_entries-owns, owns, offered,
}
use scat.Stripe.{Config}
use scat.Stores.Striping.{Striper}

-- The adders that `New` gives to `AddEntriesTo`, in their order.
abbrev pub add_both : Man × Reg → ℕ → LsEntry → Man × Reg
add_both (m, r) id e = (add_quota m id e, add_copy r id e)

-- `New`, given the listings of the stores that `Resources(0)` offers.
unfoldable pub new_striper : Config → Man → List Lister → Striper × Option Error
unfolding resources add_entries
new_striper cfg qman listers =
    let ((m, r), err) = add_entries add_both (qman, []) listers in
    (
      record { cfg = cfg; qman = m; reg = r; seq = record { items = resources qman 0; cur = 0 } },
      err,
    )

add_all-copies :
    (m : Man) (r : Reg) (id : ℕ) (es : List LsEntry)
    → (add_all add_both (m, r) id es).1 ≡ add_all add_copy r id es
unfolding add_all
add_all-copies m r id [] = refl
add_all-copies m r id (e ∷ es) = add_all-copies (add_quota m id e) (add_copy r id e) id es

add_entries-copies :
    (m : Man) (r : Reg) (ls : List Lister)
    → ((add_entries add_both (m, r) ls).0.1 ≡ (add_entries add_copy r ls).0)
      × ((add_entries add_both (m, r) ls).1 ≡ (add_entries add_copy r ls).1)
unfolding add_entries
add_entries-copies m r [] = (refl, refl)
add_entries-copies m r ((id, inr e) ∷ ls) = ((add_entries-copies m r ls).0, refl)
add_entries-copies m r ((id, inl es) ∷ ls) =
    let (n, s) = add_all add_both (m, r) id es in
    let (regs, errs) = add_entries-copies n s ls in
    let same = add_all-copies m r id es in
    (
      regs ∙ ap (λ q. (add_entries add_copy q ls).0) same,
      errs ∙ ap (λ q. (add_entries add_copy q ls).1) same,
    )

owns_none : (h o : ℕ) → owns [] h o ≡ false
unfolding list contains lookup has
owns_none h o = refl

-- The proc starts from the stores with room, in their order, and its registry says that a store
-- owns a chunk exactly if the store's listing has the chunk; it comes with an error exactly if
-- some listing fails.
pub new_striper-owns :
    (cfg : Config) (qman : Man) (listers : List Lister)
    → ((new_striper cfg qman listers).0.seq.items ≡ resources qman 0)
      × ((h o : ℕ) → owns (new_striper cfg qman listers).0.reg h o ≡ offered h o listers)
      × (((new_striper cfg qman listers).1 ≡ none) ↔ All (λ l. (e : Error) → l.1 ≢ inr e) listers)
unfolding new_striper
new_striper-owns cfg qman listers =
    let (regs, errs) = add_entries-copies qman [] listers in
    let (entered, fails) = add_entries-owns [] listers in
    (
      refl,
      λ h o. ap (λ r. owns r h o) regs ∙ entered h o ∙ ground (arith, owns_none h o),
      (λ n. fails.0 (sym errs ∙ n), λ a. errs ∙ fails.1 a),
    )
