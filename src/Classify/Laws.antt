-- ===== src/Classify/Laws.antt =====
-- Whose hosts internal/classify/classify.go calls the site's own.
use wsaw.Prelude.{◌≡◌, some, List, any, arith}
use wsaw.Prelude.Text.{Text, eqb_refl, to_lower}
use wsaw.Model.Enums.{Party}
use wsaw.Classify.{Domains, Classifier, NewResult, new, classify, registrable_domain, mem}

-- A request whose URL has a host with the registrable domain of the host of the target's URL is
-- first-party, whatever additional domains are configured.
pub new-classify :
    (d : Domains) (target_url raw : Text) (additional : List Text) (c : Classifier) (h k : Text)
    → new d target_url additional ≡ NewResult.ok c
    → d.hostname target_url ≡ some h
    → d.hostname raw ≡ some k
    → registrable_domain d (to_lower k) ≡ registrable_domain d (to_lower h)
    → (classify d c raw).party ≡ Party.first
unfolding new classify mem any
new-classify d target_url raw additional c h k n e f same =
    ground (arith, eqb_refl (registrable_domain d (to_lower h)))
