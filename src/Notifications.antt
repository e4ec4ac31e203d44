-- ===== src/Notifications.antt =====
-- The emitters of backend/app/services/notification_service.py that the modelled services call.
use Prim.Native.String.{◌++◌ as joined}
use tasktrack.Prelude.{ℕ, String, false, Option, none, some, [], ◌∷◌, ◌++◌}
use tasktrack.Model.Enums.{NotificationEventType, NotificationEntityType}
use tasktrack.Model.{Task, Tables}

-- `notify`
abbrev pub notify :
    ℕ → NotificationEventType → NotificationEntityType → ℕ → Option ℕ → String → Tables → Tables
notify recipient_id event_type entity_type entity_id task_id message t = record t {
  notifications =
      t.notifications
      ++ record {
        recipient_id = recipient_id;
        event_type = event_type;
        entity_type = entity_type;
        entity_id = entity_id;
        task_id = task_id;
        message = message;
        is_read = false;
      }
        ∷ [];
}

abbrev assigned_message : Task → String
assigned_message task = joined "Вас назначили на задачу " (joined task.key (joined ": " task.title))

abbrev to_assignee : Option ℕ → Task → Tables → Tables
to_assignee none task t = t
to_assignee (some assignee_id) task t =
    notify assignee_id NotificationEventType.task_assigned NotificationEntityType.task task.id
      (some task.id) (assigned_message task) t

unfoldable pub notify_task_assigned : Task → Tables → Tables
notify_task_assigned task t = to_assignee task.assignee_id task t
