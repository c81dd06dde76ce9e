-- ===== src/Node/Unload.antt =====
-- What is left of a component that has been unloaded.
use gemini_nos.Base.{
  ℕ, suc, ◌+◌, ◌-◌, ◌<◌, ◌≡◌, ◌⊎◌, inl, inr, refl, ap, ap₂, ◌∙◌, arith, Bool, false, true, ◌&&◌,
  ◌||◌, not, Option-cases, none, some, if◌then◌else◌, List, ◌∷◌, ◌++◌, ==_iff, ltb, leb,
  entries_from, entries_from-append, entries_from-eq, nos_ok, nos_err,
}
use gemini_nos.Base.Scan.{scan-Found}
use gemini_nos.Services.Lookup.{IsKeyed, looked_up}
use gemini_nos.Node.{
  Node, LoadedInfo, Library, loaded_at, close_gap, unload_component, reload_component,
  load_component,
}
use gemini_nos.Node.Drop.{provides, drop_services_lem}

-- `loaded_info` as a list
abbrev pub loaded : Node → List LoadedInfo
loaded n = entries_from n.loaded_info 0 n.loaded_count

entries-close_gap {ℓ} :
    {A : Type ℓ} (a : ℕ → A) (idx count : ℕ)
    → idx < count
    → entries_from (close_gap a idx count) 0 (count - 1)
      ≡ entries_from a 0 idx ++ entries_from a (idx + 1) (count - 1 - idx)
entries-close_gap a idx count h =
    ap (entries_from (close_gap a idx count) 0) parts
    ∙ entries_from-append (close_gap a idx count) 0 idx (count - 1 - idx)
    ∙ ap₂ ◌++◌ (entries_from-eq (close_gap a idx count) a 0 0 idx (λ j p. before j p)) (
        entries_from-eq (close_gap a idx count) a (0 + idx) (idx + 1) (count - 1 - idx)
          (λ j p. after j p))
  where
    parts : count - 1 ≡ idx + (count - 1 - idx)
    parts = omega arith

    before : (j : ℕ) → j < idx → close_gap a idx count (0 + j) ≡ a (0 + j)
    before j p = let e : leb idx (0 + j) ≡ false = ground arith in rw e

    after : (j : ℕ) → j < count - 1 - idx → close_gap a idx count (0 + idx + j) ≡ a (idx + 1 + j)
    after j p =
        let e : leb idx (0 + idx + j) ≡ true = ground arith in
        let f : ltb (0 + idx + j) (count - 1) ≡ true = ground arith in
        let g : 0 + idx + j + 1 ≡ idx + 1 + j = omega arith in rw (e, f) (ap a g)

entries-split {ℓ} :
    {A : Type ℓ} (a : ℕ → A) (idx count : ℕ)
    → idx < count
    → entries_from a 0 count
      ≡ entries_from a 0 idx ++ a idx ∷ entries_from a (idx + 1) (count - 1 - idx)
entries-split a idx count h =
    let e : count ≡ idx + suc (count - 1 - idx) = omega arith in
    let f : suc (0 + idx) ≡ idx + 1 = omega arith in
    let g : 0 + idx ≡ idx = omega arith in
    ap (entries_from a 0) e
    ∙ entries_from-append a 0 idx (suc (count - 1 - idx))
    ∙ ap₂ (λ k l. entries_from a 0 idx ++ a k ∷ entries_from a l (count - 1 - idx)) g f

-- What is left of a component that is in place `idx`.
lost :
    (name : ℕ) (n : Node) (idx : ℕ)
    → IsKeyed n.registry
    → loaded_at n name ≡ some idx
    → let info = n.loaded_info idx in
      let out = unload_component name n in
      (before after : List LoadedInfo) × (loaded n ≡ before ++ info ∷ after)
      × (loaded out.1 ≡ before ++ after)
      × IsKeyed out.1.registry
      × ((k : ℕ)
          → looked_up out.1.registry k ≡ (
              if provides (n.comp info.comp).id n.services k then none else looked_up n.registry k))
unfolding unload_component loaded_at
lost name n idx v hit =
    let f = scan-Found _ 0 n.loaded_count idx hit in
    let info = n.loaded_info idx in
    let d = drop_services_lem (n.comp info.comp).id n.services n.registry v in
    rw (hit, unload_component)
      (
        entries_from n.loaded_info 0 idx,
        entries_from n.loaded_info (idx + 1) (n.loaded_count - 1 - idx),
        entries-split n.loaded_info idx n.loaded_count (omega (arith, f.upper)),
        entries-close_gap n.loaded_info idx n.loaded_count (omega (arith, f.upper)),
        d.0,
        d.1,
      )

-- Unloading a component of a name that is not loaded is an error and changes nothing. Otherwise the
-- first entry of the name leaves the list of what is loaded, whose others stay in their order, and
-- exactly the services that the manifest gives to the component's id leave the registry, where no id
-- stands twice before and after.
pub unload_lem :
    (name : ℕ) (n : Node)
    → IsKeyed n.registry
    → let out = unload_component name n in
      ((loaded_at n name ≡ none) × (out ≡ (nos_err, n)))
      ⊎ ((before after : List LoadedInfo) × (info : LoadedInfo) × (out.0 ≡ nos_ok)
          × ((n.comp info.comp).name ≡ name)
          × (loaded n ≡ before ++ info ∷ after)
          × (loaded out.1 ≡ before ++ after)
          × IsKeyed out.1.registry
          × ((k : ℕ)
              → looked_up out.1.registry k ≡ (
                  if provides (n.comp info.comp).id n.services k
                  then none
                  else looked_up n.registry k)))
unfolding unload_component loaded_at
unload_lem name n v = elim (Option-cases (loaded_at n name)) [
  | inl miss ↦ inl (miss, rw (miss, unload_component))
  | inr (idx, hit) ↦
      let f = scan-Found _ 0 n.loaded_count idx hit in
      let (before, after, was, is, keyed, served) = lost name n idx v hit in
      inr (
        before,
        after,
        n.loaded_info idx,
        rw (hit, unload_component) refl,
        (==_iff _ _).0 f.passes,
        was,
        is,
        keyed,
        served,
      )
]

-- Whether every step of loading a file succeeds.
abbrev pub loads : Library → ℕ → ℕ → Bool
loads lib file id =
    lib.opens file
    && lib.has_symbol file
    && lib.exports file id
    && (not (lib.has_init file) || lib.inits file id)

load_fails :
    (lib : Library) (id name file : ℕ) (n : Node)
    → loads lib file id ≡ false
    → load_component lib id name file n ≡ (none, n)
unfolding load_component
load_fails lib id name file n h = ground arith

fails-eq :
    (lib : Library) (name : ℕ) (n : Node) (idx : ℕ)
    → loaded_at n name ≡ some idx
    → let info = n.loaded_info idx in
      loads lib info.lib_name (n.comp info.comp).id ≡ false
      → reload_component lib name n ≡ (nos_err, (unload_component name n).1)
unfolding reload_component
fails-eq lib name n idx hit bad =
    let info = n.loaded_info idx in
    let e =
      load_fails lib (n.comp info.comp).id name info.lib_name (unload_component name n).1 bad in
    rw (hit, reload_component, ap (λ r. r.0) e) (ap (λ r. (nos_err, r.1)) e)

-- Where no id stands twice in the registry: reloading a loaded component whose file fails to load
-- again, at whichever step, is an error that loses the component. Its entry, the first of its name,
-- leaves the list of what is loaded, whose others stay in their order; no service that the manifest
-- gives to the component's id is found any more, every other is found as before, and no id stands
-- twice.
pub reload_fails :
    (lib : Library) (name : ℕ) (n : Node) (idx : ℕ)
    → IsKeyed n.registry
    → loaded_at n name ≡ some idx
    → let info = n.loaded_info idx in
      loads lib info.lib_name (n.comp info.comp).id ≡ false
      → let out = reload_component lib name n in
        (out.0 ≡ nos_err)
        × (before after : List LoadedInfo) × (loaded n ≡ before ++ info ∷ after)
        × (loaded out.1 ≡ before ++ after)
        × IsKeyed out.1.registry
        × ((k : ℕ)
            → looked_up out.1.registry k ≡ (
                if provides (n.comp info.comp).id n.services k
                then none
                else looked_up n.registry k))
reload_fails lib name n idx v hit bad =
    let (before, after, was, is, keyed, served) = lost name n idx v hit in
    rw (fails-eq lib name n idx hit bad) (refl, before, after, was, is, keyed, served)
