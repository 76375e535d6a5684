-- ===== src/Handlers.antt =====
-- The handlers of handlers/redishandler.go, mysqldhandler.go, elasticsearchhandler.go and
-- mongodbhandler.go.
pub mod Redis
pub mod Mysqld
pub mod Elastic
pub mod Mongodb
mod Tests
