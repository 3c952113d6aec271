-- ===== src/Models.antt =====
-- Rows of eyot-backend/app/models that several components read: entity.py, instance.py and
-- workspace.py (`Membership`), by the columns that are read.
use eyot_ai.Prelude.{ℕ, String, Bool, true, false, Option, List, [], ◌∷◌, ◌≡◌, ◌⊎◌, inl, inr, refl}

pub record Entity : Type 0 where
  pub id : String
  pub namespace_id : String
  pub slug : String
  pub deleted_at : Option ℕ

pub data InstanceStatus : Type 0 where
  creating pending deploying running restarting failed deleting : InstanceStatus

-- running, pending, creating or deploying
abbrev pub is_active : InstanceStatus → Bool
is_active running = true
is_active pending = true
is_active creating = true
is_active deploying = true
is_active _ = false

pub record Instance : Type 0 where
  pub id : String
  pub entity_id : String
  pub workspace_id : String
  pub status : InstanceStatus
  pub deleted_at : Option ℕ

pub record Membership : Type 0 where
  pub id : String
  pub workspace_id : String
  pub user_id : Option String
  pub instance_id : Option String
  pub deleted_at : Option ℕ

-- what `scalar_one_or_none` makes of the rows of a query: it raises on several
pub data Found (A : Type 0) : Type 0 where
  absent several : Found A
  single : A → Found A

abbrev pub one_or_none : {A : Type 0} → List A → Found A
one_or_none [] = absent
one_or_none (x ∷ []) = single x
one_or_none (x ∷ y ∷ l) = several

pub one_or_none-cases :
    {A : Type 0} (l : List A) → (l ≡ []) ⊎ (((x : A) × (l ≡ x ∷ [])) ⊎ (one_or_none l ≡ several))
one_or_none-cases [] = inl refl
one_or_none-cases (x ∷ []) = inr (inl (x, refl))
one_or_none-cases (x ∷ y ∷ l) = inr (inr refl)
