-- ===== src/Tenancy/Index/Keys.antt =====
-- The keys of an organization's users are injective on ids without the separator.
use flametrench_go.Base.{◌≡◌, true, Text}
use flametrench_go.Base.Keys.{no_bar, bar_split}
use flametrench_go.Tenancy.Store.{org_usr_key}

-- Two organizations whose ids hold no '|' share no key.
pub org_usr_key-injective :
    (a b c d : Text)
    → no_bar a ≡ true
    → no_bar b ≡ true
    → org_usr_key a c ≡ org_usr_key b d
    → (a ≡ b) × (c ≡ d)
unfolding org_usr_key
org_usr_key-injective a b c d h k e = bar_split a b c d h k e
