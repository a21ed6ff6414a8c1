-- ===== src/Message.antt =====
-- include/Message: the queue interface, the deque that the tasks use, and the factory
-- (include/Message/MessageQueueFactory.hpp).
pub mod Interface
pub mod Deque
pub mod Posix
use Interface.{IMessageQueue}
use Deque.{deque}

-- `MessageQueueFactory::create`: always a `SynchronizedDeque`; the argument is `T{}`.
unfoldable pub create : {A : Type 0} → A → IMessageQueue A
create default = deque default
