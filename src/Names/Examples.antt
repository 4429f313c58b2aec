-- ===== src/Names/Examples.antt =====
-- A name that is drawn.
use tx.Base.{◌≡◌, refl, inl, false, [], ok}
use tx.Dict.{elem}
use tx.Names.Fresh.{generate-free, generate-total}
use tx.Names.Valid.{generate-valid}
use tx.Names.{Rand, generate, generate_within, validate, random_attempts, word_at, hyphenate}
use tx.Text.{Text, codes}

-- Draws the first word each time.
abbrev first_words : Rand
first_words = record { int_n = λ call bound. 0; in_range = λ call bound h. h }

drawn : generate first_words [] ≡ ok (codes "large-cat")
unfolding generate generate_within random_attempts elem word_at
drawn = refl

generate-valid_example : validate (codes "large-cat") ≡ ok tt
generate-valid_example = generate-valid first_words [] drawn

generate-free_example : elem (codes "large-cat") [] ≡ false
generate-free_example = generate-free first_words [] drawn

not_taken : elem (hyphenate (codes "large") (codes "cat")) [] ≡ false
unfolding elem
not_taken = refl

generate-total_example : (name : Text) × (generate first_words [] ≡ ok name)
generate-total_example =
    generate-total first_words [] (codes "large") (codes "cat") (inl refl) (inl refl) not_taken
