-- ===== src/Model.antt =====
-- bat/adapters/llama_cpp_client.py: the model within the process. Queue has its admission, Client
-- its loading and its calls, Wire what goes to llama.cpp and comes back, Stream the hand-over of a
-- streamed answer; Loading is about loading twice, and Fairness, RoundTrip, Restore and Delivery
-- have the claims.
pub mod Queue
pub mod Fairness
pub mod Wire
pub mod RoundTrip
pub mod Client
pub mod Loading
pub mod Restore
pub mod Stream
pub mod Delivery
