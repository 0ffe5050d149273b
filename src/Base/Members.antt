-- ===== src/Base/Members.antt =====
-- What occurs in a list.
use course_code.Base.{◌≡◌, ◌⊎◌, inl, inr, List, [], ◌∷◌, ◌++◌}

abbrev pub In : {A : Type 0} → A → List A → Type 0
In a [] = ⊥
In a (b ∷ l) = (b ≡ a) ⊎ In a l

pub In-append_left : {A : Type 0} (a : A) (l l' : List A) → In a l → In a (l ++ l')
In-append_left a [] l' h = absurd h
In-append_left a (b ∷ l) l' (inl e) = inl e
In-append_left a (b ∷ l) l' (inr h) = inr (In-append_left a l l' h)
