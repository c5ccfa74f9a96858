-- ===== src/Base/Concat.antt =====
-- Texts in one piece.
use mathlib.Core.Path.{◌≡◌, refl, sym, ap, ◌∙◌}
use mathlib.Core.List.{List, [], ◌∷◌, ◌++◌, append_assoc}
use reflow_gateway.Base.Text.{Text}

unfoldable pub concat : List Text → Text
concat [] = []
concat (t ∷ ts) = t ++ concat ts

concat-append : (ts us : List Text) → concat (ts ++ us) ≡ concat ts ++ concat us
unfolding concat
concat-append [] us = refl
concat-append (t ∷ ts) us =
    ap (◌++◌ t) (concat-append ts us) ∙ sym (append_assoc t (concat ts) (concat us))

pub concat_front :
    (ts us : List Text) (rest : Text) → concat (ts ++ us) ++ rest ≡ concat ts ++ (concat us ++ rest)
concat_front ts us rest =
    ap (λ t. t ++ rest) (concat-append ts us) ∙ append_assoc (concat ts) (concat us) rest
