-- ===== src/Session.antt =====
-- core/session.go: the sessions of the clients. State.antt has the state and what a session uses of
-- the rest of the program, Group.antt the packets of group chats, Actions.antt the methods that
-- write, route and close, Login.antt the opening of a session, Handler.antt the handling of what
-- is received.
pub mod State
pub mod Group
pub mod Actions
pub mod Login
pub mod Handler
pub mod Progress
pub mod Blind
pub mod Wire
pub mod Socket
pub mod Delivery
pub mod Members
pub mod Payload
pub mod Opened
pub mod Offline
pub mod Forwarding
pub mod Kept
pub mod Authentic
pub mod Ranges
pub mod Unacknowledged
pub mod Relogin
pub mod Stays
pub mod Authorized
pub mod Entry
pub mod Services
pub mod Tests
mod EndTests
