-- ===== src/Dynamo.antt =====
-- libs/dynamodb: the service of the DynamoDB table.
pub mod Values
pub mod Batches
pub mod Items
pub mod Queries
