-- ===== src/Text/Lines.antt =====
-- getline, on lines that end in one byte.
use byron0416_mp.Prelude.{◌<◌, ◌≡◌, ◌≢◌, refl, [], ◌∷◌, ◌++◌, arith, All}
use byron0416_mp.Text.{Text, lines_of, c_prefix}

pub lines_of-newline :
    (l more : Text) → All (λ c. c ≢ 10) l → lines_of (l ++ 10 ∷ more) ≡ l ∷ lines_of more
unfolding lines_of
lines_of-newline [] more h = refl
lines_of-newline (c ∷ cs) more h = ground (arith, lines_of-newline cs more h.1, h.0)

pub c_prefix_full : (l : Text) → All (λ c. 0 < c) l → c_prefix l ≡ l
unfolding c_prefix
c_prefix_full [] h = refl
c_prefix_full (c ∷ cs) h = ground (arith, c_prefix_full cs h.1, h.0)
