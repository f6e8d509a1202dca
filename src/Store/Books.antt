-- ===== src/Store/Books.antt =====
-- The relation of tables whose flows account for every change of a balance, with no balance that
-- has fallen below zero.
use ai_token_mall.Prelude.{◌≡◌, refl}
use ai_token_mall.Store.Action.{Tables, Action}
use ai_token_mall.Store.Ensures.{Ensures, Ensures-weaken}
use ai_token_mall.Store.Balances.{Reconciled, Reconciled-refl, Reconciled-trans, Solvent}
use ai_token_mall.Store.Keeps.{Keeps, Frame}

pub record Booked (t t' : Tables) : Type 0 where
  pub reconciled : Reconciled t t'
  pub solvent : Solvent t → Solvent t'

pub Booked-refl : (t : Tables) → Booked t t
Booked-refl t = record { reconciled = Reconciled-refl t; solvent = λ h. h }

pub Booked-trans : (t u v : Tables) → Booked t u → Booked u v → Booked t v
Booked-trans t u v a b = record {
  reconciled = Reconciled-trans t u v a.reconciled b.reconciled;
  solvent = λ h. b.solvent (a.solvent h);
}

-- A change of other tables.
pub Booked-frame : (t t' : Tables) → t'.users ≡ t.users → t'.flows ≡ t.flows → Booked t t'
Booked-frame t t' us fs = record {
  reconciled = rw (us, fs) (Reconciled-refl t);
  solvent = λ h. rw us h;
}

pub books_frame : Frame Booked
books_frame = record {
  same = Booked-refl;
  chain = Booked-trans;
  notification = λ row t. Booked-frame t _ refl refl;
  new_subscription = λ row t. Booked-frame t _ refl refl;
  subscription = λ id f t. Booked-frame t _ refl refl;
  new_api_key = λ row t. Booked-frame t _ refl refl;
  api_keys = λ p f t. Booked-frame t _ refl refl;
  coupons = λ p f t. Booked-frame t _ refl refl;
  invoice = λ row t. Booked-frame t _ refl refl;
  callback = λ row t. Booked-frame t _ refl refl;
}

abbrev pub KeepsBooks : {A : Type 0} → Action A → Type 0
KeepsBooks m = Keeps Booked m

-- What keeping the books says of tables without a balance below zero.
pub books_of :
    {A : Type 0} {m : Action A} {t : Tables}
    → KeepsBooks m
    → Solvent t
    → Ensures m (λ _ t'. Reconciled t t' × Solvent t') t
books_of {t} k h = Ensures-weaken (k t) (λ a t' b. (b.reconciled, b.solvent h))
