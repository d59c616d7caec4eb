-- ===== src/Database/Listed.antt =====
-- A database of lists of rows, in which the theorems about any database can be applied.
use ntfy.Dexie.Rows.{table, no_rows}
use ntfy.Database.{Dexie, Db}

abbrev pub listed : Dexie
listed = record {
  subscriptions = table _;
  notifications = table _;
  users = table _;
  prefs = table _;
}

abbrev pub empty : Db listed
empty = record {
  subscriptions = no_rows _;
  notifications = no_rows _;
  users = no_rows _;
  prefs = no_rows _;
}
