-- ===== src/Tests/Items.antt =====
-- The theorems on the DynamoDB service at concrete items.
use astro_api_gateway.Common.{ℤ, pos, ◌≡◌, refl, true, [], ◌∷◌}
use astro_api_gateway.Dynamo.Values.{
  Value, Fields, undefined, null, boolean, number, text, array, object, no_elements, element,
  no_fields, field, normalize_data, denormalize_data,
}
use astro_api_gateway.Dynamo.Values.RoundTrip.{defined_fields, denormalize_data-normalize_data}
use astro_api_gateway.Dynamo.Items.{PartialEntity, entity_by_type, key_of, save_item, increment}
use astro_api_gateway.Dynamo.Items.Saving.{Stores, save_item_lem}
use astro_api_gateway.Dynamo.Items.Counters.{Counts, increment_lem}
use astro_api_gateway.Dynamo.Items.InMemory.{Stored, stored_items}

abbrev draft_fields : Fields
draft_fields = field "title" (text "Roadmap") (
    field "" (array (element (number (pos 1)) (element null no_elements))) (
      field "note" undefined (field "kind" (object (field "" (boolean true) no_fields)) no_fields)))

denormalize_data-normalize_data_example :
    denormalize_data (normalize_data (object draft_fields)) ≡ object (defined_fields draft_fields)
denormalize_data-normalize_data_example = denormalize_data-normalize_data draft_fields (
  refl,
  refl,
  tt,
  (refl, refl, (tt, tt, (tt, tt, tt)), (refl, refl, tt, (refl, refl, (refl, refl, tt, tt), tt))),
)

abbrev draft_entity : PartialEntity
draft_entity = entity_by_type "dao.near" "DraftProposal" "1" (field "title" (text "Plan") no_fields)

abbrev old_fields : Fields
old_fields = field "replies" (number (pos 2)) (field "updatedAt" (number (pos 10)) no_fields)

abbrev table_up : Stored
table_up = record { up = true; items = (key_of draft_entity, old_fields) ∷ [] }

save_item_lem_example :
    Stores stored_items draft_entity
      (pos 20)
      (pos 21)
      table_up
      (save_item stored_items draft_entity (pos 20) (pos 21) table_up)
save_item_lem_example = save_item_lem stored_items draft_entity (pos 20) (pos 21) table_up

abbrev no_add : Value → ℤ → Value
no_add v n = v

increment_lem_example :
    Counts stored_items no_add (key_of draft_entity) "replies" (pos 1) old_fields table_up (
      increment stored_items no_add stored_items.read draft_entity "replies"
        (pos 1)
        (pos 20)
        (pos 21)
        table_up)
increment_lem_example =
    increment_lem stored_items no_add draft_entity "replies" (pos 2) (pos 1) (pos 20) (pos 21)
      old_fields table_up refl (refl, (refl, tt)) ((refl, refl), refl) refl
