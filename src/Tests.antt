-- ===== src/Tests.antt =====
-- Runs of the code on concrete inputs.
mod Data
mod Wire
mod Tables
mod Routing
mod Transport
mod Client
mod Connection
mod Overlay
mod Sockets
mod Lab1
mod Lab2
mod Lab3
mod Stack
