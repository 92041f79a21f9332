-- ===== src/Contact.antt =====
-- The contacts of a user: engine/model_contact.go, engine/model_contact_status.go and the contact
-- actions of the client in engine/action_contact.go. `Model` has the record and its methods,
-- `Store` the datastore's table of contacts, `Client` the actions; the rest proves.
pub mod Model
pub mod Store
pub mod Client
pub mod Status
pub mod Atomic
pub mod Validity
pub mod Triples
pub mod Actions
pub mod Invitations
pub mod Requests
mod Tests
