-- ===== src/Task/TaskBase.antt =====
-- include/Task/TaskBase.hpp and lib/Task/TaskBase.cpp: the name and the kind of a task, and the
-- thread that the base class has. A thread is its identity, or `none` if it was never started.
use cpp_framework.Prelude.{ℕ, Option, none, Text}

pub data TaskType : Type 0 where
  unknown message statement real_time back_ground task_pool : TaskType

pub record TaskInformation : Type 0 where
  pub name : Text
  pub type : TaskType
  pub thread_id : Option ℕ

pub record TaskBase : Type 0 where
  pub name : Text
  pub type : TaskType
  pub thread : Option ℕ

unfoldable pub new_task_base : TaskType → Text → TaskBase
new_task_base type name = record { name = name; type = type; thread = none }

unfoldable pub get_task_information : TaskBase → TaskInformation
get_task_information t = record { name = t.name; type = t.type; thread_id = t.thread }
