-- ===== src/DocsPage/Content.antt =====
-- What the documentation page shows, and where it links.
use kdelta.Prelude.{ℕ, suc, List, [], ◌∷◌, ◌++◌, map, ◌≡◌, refl, String}
use kdelta.Text.{Text, js, text_eq}
use kdelta.Text.Decimal.{read, read-decimal}
use kdelta.Ui.{Styling, attr, rest}
use kdelta.Ui.Slot.{slot}
use kdelta.Ui.Button.{button}
use kdelta.Ui.Tree.{links, clicks, words}
use kdelta.DocsPage.{repo, Stage, pipeline, features, each_from, stage_card, feature_card}
use kdelta.DocsPage.Sections.{
  how_it_works, getting_started, underneath, site_header, notice, page_footer, home,
}

-- Where the page links, below the repository.
abbrev pub targets : List String
targets =
    "#readme" ∷ "" ∷ "/releases" ∷ "/discussions" ∷ "/releases/latest"
    ∷ "/blob/main/CONTRIBUTING.md" ∷ "/blob/main/docs/ARCHITECTURE.md"
    ∷ "/blob/main/docs/ROADMAP.md" ∷ []

-- The numbers that the words of the cards begin with, read back, and the words behind them.
abbrev pub Numbered : ℕ → List Stage → List Text → Type 0
Numbered i [] ws = ws ≡ []
Numbered i (x ∷ xs) (w ∷ stage ∷ question ∷ detail ∷ ws) =
    (read 0 w ≡ suc i)
    × (stage ≡ x.stage)
    × (question ≡ x.question)
    × (detail ≡ x.detail)
    × Numbered (suc i) xs ws
Numbered i (x ∷ xs) _ = ⊥

cards-Numbered :
    (s : Styling) (i : ℕ) (stages : List Stage)
    → Numbered i stages (words (each_from i stages (stage_card s)))
unfolding stage_card slot
cards-Numbered s i [] = refl
cards-Numbered s i (x ∷ xs) = (read-decimal (suc i), refl, refl, refl, cards-Numbered s (suc i) xs)

home-links : (s : Styling) → links (home s) ≡ map (λ p. repo ++ js p) targets
unfolding home links slot text_eq attr button stage_card feature_card pipeline features notice
    site_header how_it_works getting_started underneath page_footer rest
home-links s = refl

home-clicks : (s : Styling) → clicks (home s) ≡ []
unfolding home clicks slot text_eq attr button stage_card feature_card pipeline features notice
    site_header how_it_works getting_started underneath page_footer rest
home-clicks s = refl

-- However class names are put together: the page links to the repository and to seven places in it,
-- in this order, and to nothing else; nothing on it answers a click; and the cards of any list of
-- stages are numbered in decimals, from one on and in order.
home_lem :
    (s : Styling) (stages : List Stage)
    → (links (home s) ≡ map (λ p. repo ++ js p) targets)
      × (clicks (home s) ≡ [])
      × Numbered 0 stages (words (each_from 0 stages (stage_card s)))
home_lem s stages = (home-links s, home-clicks s, cards-Numbered s 0 stages)
