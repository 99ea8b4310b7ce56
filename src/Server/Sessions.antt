-- ===== src/Server/Sessions.antt =====
-- What holds of all sessions in a list, and the list when one of them changes.
use in_memory_object_storage.Common.{
  ℕ, zero, suc, ◌≡◌, subst, List, [], ◌∷◌, some, arith, get_elem?, All,
}
use in_memory_object_storage.Session.{Session}
use in_memory_object_storage.Server.{set}

pub All-map :
    (P Q : Session → Type 0) (l : List Session) → ((s : Session) → P s → Q s) → All P l → All Q l
All-map P Q [] f h = tt
All-map P Q (s ∷ l) f h = (f s h.0, All-map P Q l f h.1)

pub All-get :
    (P : Session → Type 0) (l : List Session) (i : ℕ) (s : Session)
    → get_elem? l i ≡ some s
    → All P l
    → P s
All-get P [] i s e h = cc
All-get P (t ∷ l) zero s e h = subst P (ground (arith, e)) h.0
All-get P (t ∷ l) (suc i) s e h = All-get P l i s e h.1

pub All-set :
    (P : Session → Type 0) (l : List Session) (i : ℕ) (s : Session)
    → P s
    → All P l
    → All P (set l i s)
All-set P [] i s p h = tt
All-set P (t ∷ l) zero s p h = (p, h.1)
All-set P (t ∷ l) (suc i) s p h = (h.0, All-set P l i s p h.1)
