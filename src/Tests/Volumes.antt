-- ===== src/Tests/Volumes.antt =====
-- Theorems on the texts of volumes and images, at examples.
use pipeline_operator.Prelude.{◌≡◌, ◌↔◌, refl, false, [], ◌∷◌, codes, is_blank, All}
use pipeline_operator.Operator.Texts.{
  has, join_parts, trim_prefix, trim_suffix, default_image_registry, split_volume_corpus,
  split_volume_corpus-eq-some,
}
use pipeline_operator.Operator.Paths.{
  panicked, insert_between_first_path, insert_between_first_path-eq-panicked_iff,
}

-- A registry without a dot in its name is taken for a path of the default one.
localhost_image : default_image_registry "localhost:5000/nginx" ≡ "docker.io/localhost:5000/nginx"
unfolding default_image_registry
localhost_image = refl

split_volume_corpus-eq-some_example :
    (is_blank "data" ≡ false)
    × (join_parts b'/' "data" ("in" ∷ []) ≡ codes (trim_suffix (trim_prefix "/data/in/")))
    × All (λ t. has b'/' t ≡ false) ("data" ∷ "in" ∷ [])
unfolding split_volume_corpus
split_volume_corpus-eq-some_example =
    split_volume_corpus-eq-some "/data/in/" "data" ("in" ∷ []) refl

insert_between_first_path-eq-panicked_iff_example :
    (insert_between_first_path "data" "run" ≡ panicked) ↔ (has b'/' "data" ≡ false)
insert_between_first_path-eq-panicked_iff_example =
    insert_between_first_path-eq-panicked_iff "data" "run"
