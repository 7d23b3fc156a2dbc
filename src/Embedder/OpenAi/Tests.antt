-- ===== src/Embedder/OpenAi/Tests.antt =====
-- A run of Embed at a concrete input: the answer has the embeddings in the other order.
use tfai_go.Base.{
  ◌≡◌, refl, ℕ, false, some, List, [], ◌∷◌, Bytes, codes, length, Option, ok, pos, arith, All,
}
use tfai_go.Embedder.{OpenAiConfig}
use tfai_go.Embedder.OpenAi.{EmbedResponse, embed, embeddings_of, place}
use tfai_go.Embedder.OpenAi.Order.{IsPlaced, embed-IsPlaced}
use tfai_go.Embedder.OpenAi.Filled.{IsGiven}

abbrev config : OpenAiConfig
config = record {
  base_url = codes "u";
  api_key = codes "k";
  model = codes "m";
  dimensions = pos 2;
  azure = false;
  api_version = [];
}

abbrev response : EmbedResponse ℕ
response = record {
  status = 200;
  data_items =
      record { embedding = 8; index = pos 1 } ∷ record { embedding = 7; index = pos 0 } ∷ [];
}

abbrev texts : List Bytes
texts = codes "a" ∷ codes "b" ∷ []

abbrev placed : List (Option ℕ)
placed = some 7 ∷ some 8 ∷ []

embed-IsPlaced_example :
    (length placed ≡ length texts) × IsPlaced placed response.data_items × All IsGiven placed
unfolding embed embeddings_of place
embed-IsPlaced_example =
    embed-IsPlaced (λ request. ok response) config texts response placed refl refl (omega arith)
