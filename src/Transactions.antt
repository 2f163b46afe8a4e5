-- ===== src/Transactions.antt =====
-- The transaction handler (libs/transaction-handler/src): the actions of NEAR transactions, the
-- choice of the handlers of their receivers and methods, and the processing of actions one by one.
pub mod Actions
pub mod Routing
pub mod Funds
pub mod Handling
pub mod Near
pub mod Mapping
