-- ===== src/Problem/Laws.antt =====
-- What Add keeps of a list of problems, and what it puts there.
use telemetry_controller.Prelude.{
  String, ◌≡◌, ◌≢◌, refl, inl, inr, false, Option, none, some, List, [], ◌∷◌, ◌++◌, arith, eq_iff,
  items, append_slice, contains, contains→In, In, In-append_left, In-append_right, string_eq, ◌==◌,
  trim_space, trim_space_idem, if◌then◌else◌,
}
use telemetry_controller.Problem.{ProblemHandler, add, add_one}

-- Every listed problem is trimmed and not empty, and none is listed twice.
abbrev pub IsClean : List String → Type 0
IsClean [] = Unit
IsClean (p ∷ ps) = (p ≢ "") × (trim_space p ≡ p) × (contains ps p ≡ false) × IsClean ps

items-append_slice :
    (ps : Option (List String)) (qs : List String) → items (append_slice ps qs) ≡ items ps ++ qs
items-append_slice none [] = refl
items-append_slice none (q ∷ qs) = refl
items-append_slice (some ps) qs = refl

contains-append :
    (ps : List String) (p q : String)
    → contains ps q ≡ false
    → p ≢ q
    → contains (ps ++ p ∷ []) q ≡ false
unfolding contains
contains-append [] p q h ne = ground (arith, eq_iff p q)
contains-append (r ∷ ps) p q h ne = ground (arith, contains-append ps p q)

IsClean-append :
    (ps : List String) (p : String)
    → IsClean ps
    → contains ps p ≡ false
    → p ≢ ""
    → trim_space p ≡ p
    → IsClean (ps ++ p ∷ [])
unfolding contains
IsClean-append [] p h fresh filled trimmed = (filled, trimmed, refl, tt)
IsClean-append (q ∷ ps) p h fresh filled trimmed = (
  h.0,
  h.1,
  contains-append ps p q h.2 (ground (arith, eq_iff q p)),
  IsClean-append ps p h.3 (ground arith) filled trimmed,
)

-- The list after one round of the loop.
listed : List String → String → List String
listed ps p = if p == "" then ps else if contains ps p then ps else ps ++ p ∷ []

listed-IsClean :
    (ps : List String) (p : String) → IsClean ps → trim_space p ≡ p → IsClean (listed ps p)
unfolding listed
listed-IsClean ps p clean trimmed = ground (arith, IsClean-append ps p clean, eq_iff p "")

listed_keeps : (ps : List String) (p q : String) → In q ps → In q (listed ps p)
unfolding listed
listed_keeps ps p q old = ground (arith, In-append_left q ps (p ∷ []) old)

listed_lists : (ps : List String) (p : String) → p ≢ "" → In p (listed ps p)
unfolding listed
listed_lists ps p filled =
    ground (arith, eq_iff p "", contains→In ps p, In-append_right p ps (p ∷ []) (inl refl))

-- A handler whose Set is read back by Get.
module _ {C : Type 0} (h : ProblemHandler C)
    (get-set : (c : C) (ps : Option (List String))
      → h.get_problems (h.set_problems ps c) ≡ ps) where
  items-add_one :
      (c : C) (text : String)
      → items (h.get_problems (add_one h c text))
        ≡ listed (items (h.get_problems c)) (trim_space text)
  unfolding add_one listed
  items-add_one c text = ground (
    arith,
    get-set c (append_slice (h.get_problems c) (trim_space text ∷ [])),
    items-append_slice (h.get_problems c) (trim_space text ∷ []),
  )

  add_one-IsClean :
      (c : C) (text : String)
      → IsClean (items (h.get_problems c))
      → IsClean (items (h.get_problems (add_one h c text)))
  add_one-IsClean c text clean =
      rw (items-add_one c text)
        (listed-IsClean (items (h.get_problems c)) (trim_space text) clean (trim_space_idem text))

  add_one_keeps :
      (c : C) (text p : String)
      → In p (items (h.get_problems c))
      → In p (items (h.get_problems (add_one h c text)))
  add_one_keeps c text p old = rw (items-add_one c text) (listed_keeps _ (trim_space text) p old)

  add_one_lists :
      (c : C) (text : String)
      → trim_space text ≢ ""
      → In (trim_space text) (items (h.get_problems (add_one h c text)))
  add_one_lists c text filled = rw (items-add_one c text) (listed_lists _ (trim_space text) filled)

  -- Add keeps the list of problems clean: trimmed, without empty texts and without duplicates.
  pub add-IsClean :
      (c : C) (texts : List String)
      → IsClean (items (h.get_problems c))
      → IsClean (items (h.get_problems (add h c texts)))
  unfolding add
  add-IsClean c [] clean = clean
  add-IsClean c (text ∷ texts) clean =
      add-IsClean (add_one h c text) texts (add_one-IsClean c text clean)

  -- Add drops no problem that was listed.
  pub add_keeps :
      (c : C) (texts : List String) (p : String)
      → In p (items (h.get_problems c))
      → In p (items (h.get_problems (add h c texts)))
  unfolding add
  add_keeps c [] p old = old
  add_keeps c (text ∷ texts) p old =
      add_keeps (add_one h c text) texts p (add_one_keeps c text p old)

  -- After Add every text that is not blank is listed, trimmed.
  pub add_lists :
      (c : C) (texts : List String) (text : String)
      → In text texts
      → trim_space text ≢ ""
      → In (trim_space text) (items (h.get_problems (add h c texts)))
  unfolding add
  add_lists c [] text here filled = elim here [ ]
  add_lists c (t ∷ texts) text (inl same) filled =
      add_keeps (add_one h c t) texts (trim_space text)
        (rw same (add_one_lists c t (rw same at filled)))
  add_lists c (t ∷ texts) text (inr later) filled =
      add_lists (add_one h c t) texts text later filled
