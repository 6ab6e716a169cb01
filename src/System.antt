-- ===== src/System.antt =====
-- The two boards together: what a report of one end becomes at the other end.
pub mod Tunnel
pub mod Write
pub mod Sends
pub mod World
pub mod Reads
pub mod Air
pub mod Radio
pub mod Shown
pub mod Replies
pub mod Down
pub mod FromPortal
pub mod Honest
pub mod Up
pub mod Commands
pub mod Press
pub mod Restores
pub mod FromConsole
pub mod Sent
pub mod Answers
pub mod Answered
pub mod Acks
pub mod Confirmed
pub mod Numbers
pub mod Hand
pub mod Heard
pub mod Sound
pub mod Delivery
pub mod Progress
pub mod Rounds
pub mod Lossless
pub mod Hops
pub mod Stages
pub mod Deliverable
pub mod Plugged
pub mod Unplugged
pub mod Reached
