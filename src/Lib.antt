-- ===== src/Lib.antt =====
-- The web app of ntfy: web/src and the service worker web/public/sw.js.
--
-- The app keeps its state in four tables of IndexedDB (subscriptions, notifications, users, settings).
-- For each subscription the connection manager holds a WebSocket, by which messages come in; for its own
-- server the service worker gets them by web push instead, and a poller fetches what was missed. What
-- comes in is stored once and is then displayed. An account on the server has a list of subscriptions,
-- with which the local ones are brought into line.
--
-- What models what:
--   Base            lists, texts, the integers and JavaScript's objects, as the other files use them
--   Dexie           Dexie.js, the wrapper of IndexedDB: a record of operations with the laws that its
--                   documentation states, a parameter of all that uses the database. Dexie/Rows is a
--                   list implementation that satisfies the laws, for the examples.
--   Database, Model the tables of web/src/app/db.js and their rows
--   Util            web/src/app/utils.js: Url, Topic, Auth (headers), Hash (hashCode), Lines
--                   (fetchLinesIterator), Shuffle, Format (numbers, languages), Bytes; js-base64 and the
--                   decoder of texts are parameters
--   Connection      web/src/app/Connection.js as a step relation over a browser of sockets and timers:
--                   a socket opens, gives a message, closes, or a timer goes off, in any order
--   Manager         web/src/app/ConnectionManager.js: refresh over a map of connections
--   Subscriptions   web/src/app/SubscriptionManager.js: one function per method, on the database
--   Delivery        web/src/components/hooks.js and SubscriptionManager.notify: what becomes of a
--                   message, and which subscriptions have a WebSocket; WebPush: how the server is
--                   told the topics of web push; SyncTopic: the topic on which it says that the
--                   account has changed
--   ServiceWorker   web/public/sw.js: clicks on notifications, and Push: messages by web push
--   Formatting      web/src/app/notificationUtils.js
--   Workers         the timers of web/src/app/Poller.js, Pruner.js and AccountApi.js
--   Background      what the poller and the pruner do to the database
--   Settings        web/src/app/Prefs.js, with its numbers as decimal texts; Standalone: the app that
--                   is launched by itself (hooks.js)
--   Session, Users  web/src/app/Session.js, with the replica in IndexedDB and what is written to it while
--                   nobody waits, and UserManager.js
--   Errors          web/src/app/errors.js; Boundary: web/src/components/ErrorBoundary.jsx
--   Api             web/src/app/Api.js: its requests, and what becomes of the answers; Xhr: a request
--                   that shows its progress and can be cancelled (publishXHR)
--   Notifier        web/src/app/Notifier.js: what the browser supports and permits, and in Notify what
--                   becomes of a message
--   Account         web/src/app/AccountApi.js: its requests, and in Sync what get, sync and runWorker do
--   Page, Profile   what the handlers of the components work on (database, session, requests sent, where
--                   the page goes), with the chaining and catching of promises, and the account
--   Dialogs         the handlers of web/src/components: Entry (Login, Signup), Account (Account.jsx; Tokens:
--                   the table of access tokens, Overview: the tier and the bars of what is used,
--                   Phones: the phone numbers), Reservations (ReserveDialogs), Subscribe
--                   (SubscribeDialog), Popup (SubscriptionPopup, routes.js; TestMessage), Upgrade
--                   (UpgradeDialog; Submit: what its button does, Card: a tier), Publish (PublishDialog, Messaging; Form: the fields and
--                   their rows, Percentage: what is said of an upload), Preferences (Descriptions,
--                   Reservations: the table of the reserved topics)
--   Layout          web/src/components/App.jsx, Navigation.jsx and ActionBar.jsx; Routes: which parameters
--                   a path is matched with, where React Router matches it
--   Emojis          web/src/components/EmojiPicker.jsx and web/src/app/emojisMapped.js, over any list of
--                   emojis; Categories and Mapped are about the picker and about the tags
--   Notifications   web/src/components/Notifications.jsx: Actions, Paging, Display,
--                   Autolink (the links in a text) and Icon (AttachmentIcon.jsx)
--
-- Names follow the source, in small letters with underscores: topicUrl is topic_url, and a method m of a
-- class is m of the module of the class. Promises are followed in the order in which the code awaits
-- them; where two activities can interleave, as the events of a connection do, there is a step relation
-- and the theorems are about all its sequences. A value that may be null or undefined is an Option, a
-- promise that is rejected is none, or an err with its error where the code looks at the error. What the
-- server answers, what the clock shows, what is drawn at random and how a text parses as JSON are
-- arguments. No function takes fuel: all recursion is on lists, texts and indices that count down. Numbers
-- are natural numbers; hashCode is on the 32 bits that the source wraps to.
--
-- Not modelled: the Go server, client and command line, in another language; the markup of the
-- components; log lines; the data of emojis.js, which is generated; how long a
-- request is under way, other than for the actions of a notification and a message that is sent by
-- XHR; the libraries React, workbox and i18next.
pub mod Base
pub mod Dexie
pub mod Model
pub mod Util
pub mod Connection
pub mod Manager
pub mod Database
pub mod Subscriptions
pub mod Settings
pub mod Errors
pub mod Workers
pub mod Background
pub mod Delivery
pub mod ServiceWorker
pub mod Formatting
pub mod Session
pub mod Users
pub mod Account
pub mod Api
pub mod Notifier
pub mod Notifications
pub mod Profile
pub mod Page
pub mod Dialogs
pub mod Layout
pub mod Emojis
