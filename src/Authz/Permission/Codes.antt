-- ===== src/Authz/Permission/Codes.antt =====
-- The codes of the permissions identify them.
use customer_service_chat_sy.Base.{◌≡◌, refl, some, ◌↔◌, ◌==◌, Text, text_eq, find_sound, ==→≡}
use customer_service_chat_sy.Authz.Permission.{
  Permission, overview_view, all_permissions, code, permission_from_text,
}

from_text-code : (p : Permission) → permission_from_text (code p) ≡ some p
unfolding permission_from_text
from_text-code overview_view = refl
from_text-code _ = refl

code_of_from_text : (t : Text) (p : Permission) → permission_from_text t ≡ some p → code p ≡ t
unfolding permission_from_text
code_of_from_text t p e = ==→≡ (code p) t (find_sound (λ q. code q == t) all_permissions e)

-- A text is parsed to a permission exactly when it is that permission's code.
pub permission_from_text_iff :
    (t : Text) (p : Permission) → (permission_from_text t ≡ some p) ↔ (code p ≡ t)
permission_from_text_iff t p = (code_of_from_text t p, λ e. rw (← e) (from_text-code p))
